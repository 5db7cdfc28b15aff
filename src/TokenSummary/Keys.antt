-- ===== src/TokenSummary/Keys.antt =====
-- tokensummary: the keys of the listed tokens.
use toolkit_contracts.Base.{OnOk, arith, ok, sym, ℕ, ◌≡◌}
use toolkit_contracts.Chain.{Chain, Context, find-put}
use toolkit_contracts.TokenSummary.State.{State, code_of, make_tokencfg_pk, table_key}
use toolkit_contracts.TokenSummary.Actions.{addtoken}

module _ (c : Chain) where
  -- Once a token is listed, no token of any bank with the same code can be added: the bank does not
  -- come into the key of 64 bits.
  pub addtoken_clashes :
      (ctx ctx' : Context) (bank bank' sym sym' : ℕ) (s s' : State c)
      → addtoken c ctx bank sym s ≡ ok s'
      → code_of sym ≡ code_of sym'
      → OnOk (λ t. ⊥) (addtoken c ctx' bank' sym' s')
  unfolding addtoken make_tokencfg_pk table_key
  addtoken_clashes ctx ctx' bank bank' sym sym' s s' h e =
      let pk = table_key (make_tokencfg_pk bank sym) in
      let pk' = table_key (make_tokencfg_pk bank' sym') in
      let same : pk ≡ pk' = omega arith in
      ground (arith, find-put c s.tokencfg pk (record { bank = bank; sym = sym }) pk')
