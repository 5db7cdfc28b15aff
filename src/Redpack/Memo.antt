-- ===== src/Redpack/Memo.antt =====
-- flon.redpack: the tests on names and DID tokens.
use toolkit_contracts.Base.{
  Bool, List, Option, Text, [], false, if◌then◌else◌, ltb_ℤ, none, pos, some, ℕ, ℤ, ◌&&◌, ◌/◌, ◌==◌,
  ◌||◌, ◌∷◌,
}
use toolkit_contracts.Chain.{Chain}
use toolkit_contracts.Redpack.State.{AssignType, mean, random}

abbrev random_word : Text
random_word = b'r' ∷ b'a' ∷ b'n' ∷ b'd' ∷ b'o' ∷ b'm' ∷ []

abbrev mean_word : Text
mean_word = b'm' ∷ b'e' ∷ b'a' ∷ b'n' ∷ []

abbrev pub awrap_word : Text
awrap_word = b'a' ∷ b'w' ∷ b'r' ∷ b'a' ∷ b'p' ∷ []

abbrev pub uwrap_word : Text
uwrap_word = b'u' ∷ b'w' ∷ b'r' ∷ b'a' ∷ b'p' ∷ []

abbrev pub fee_word : Text
fee_word = b'f' ∷ b'e' ∷ b'e' ∷ []

abbrev pub flon_token : Text
flon_token = b'f' ∷ b'l' ∷ b'o' ∷ b'n' ∷ b'.' ∷ b't' ∷ b'o' ∷ b'k' ∷ b'e' ∷ b'n' ∷ []

-- 8,FLON, and the codes FLON, USDT, USDC and TYCHE.
abbrev pub sys_symbol : ℕ
sys_symbol = 0x4e4f4c4608

abbrev pub is_did_symbol : ℕ → Bool
is_did_symbol raw =
    let code = raw / 256 in
    code == 0x4e4f4c46 || code == 0x54445355 || code == 0x43445355 || code == 0x4548435954

-- Whether two names are the same, where both texts are names.
unfoldable same_name : Option ℕ → Option ℕ → Bool
same_name none m = false
same_name (some n) none = false
same_name (some n) (some m) = n == m

-- The packet's type, read from its name.
unfoldable pub type_of : Chain → Text → Option AssignType
unfolding same_name
type_of c t =
    if same_name (c.name_of t) (c.name_of random_word)
    then some random
    else if same_name (c.name_of t) (c.name_of mean_word)
    then some mean
    else none

unfoldable pub member : ℕ → List ℕ → Bool
member x [] = false
member x (y ∷ ys) = x == y || member x ys

-- Whether one of the claimer's DID tokens, with its symbol and balance, is among those required.
unfoldable pub did_matched : List ℕ → List (ℕ × ℤ) → Bool
unfolding member
did_matched dids [] = false
did_matched dids ((raw, amount) ∷ accounts) =
    ltb_ℤ (pos 0) amount && member raw dids || did_matched dids accounts
