-- ===== src/Tweak/Orchestrator/Counters.antt =====
-- The counters of a result and its effects agree.
use winforge.Prelude.{
  ℕ, suc, ◌+◌, ◌≤◌, Bool, Option, none, some, List, [], ◌∷◌, ◌++◌, ◌≡◌, ◌↔◌, arith, length,
  length-append,
}
use winforge.Text.{CaseTable}
use winforge.Config.{Operation, Tweak}
use winforge.Audit.Entry.{Logger}
use winforge.Tweak.Executor.{Executor}
use winforge.Tweak.Effect.{Effect, TweakResult, tally, failure}
use winforge.Tweak.Apply.{apply_op}
use winforge.Tweak.Orchestrator.{World, audit, apply_one, apply_all, new_result, apply}

-- how many effects carry an error
abbrev pub failed_count : List Effect → ℕ
failed_count [] = 0
failed_count (eff ∷ effs) = elim eff.error [
  | none ↦ failed_count effs
  | some e ↦ suc (failed_count effs)
]

pub record Agrees (n : ℕ) (res : TweakResult) : Type 0 where
  pub every_effect : length res.effects ≡ n
  pub all_counted : res.succeeded + res.failed ≡ n
  pub failures_counted : res.failed ≡ failed_count res.effects
  pub changes_succeed : res.changed ≤ res.succeeded

failed_count-append :
    (xs : List Effect) (eff : Effect)
    → failed_count (xs ++ eff ∷ []) ≡ failed_count xs + failed_count (eff ∷ [])
failed_count-append [] eff = omega arith
failed_count-append (x ∷ xs) eff = ground (arith, failed_count-append xs eff)

tally-Agrees :
    (n : ℕ) (res : TweakResult) (eff : Effect) → Agrees n res → Agrees (n + 1) (tally res eff)
unfolding tally
tally-Agrees n res eff h =
    ground (arith, failed_count-append res.effects eff, length-append res.effects (eff ∷ []))

module _ ⦃c : CaseTable⦄ {S L : Type 0} (E : Executor S) (logger : Option (Logger L)) where
  audit-Agrees :
      (t : Tweak) (op : Operation) (dry : Bool) (eff : Effect) (n : ℕ) (res : TweakResult) (l : L)
      → Agrees n res
      → Agrees n (audit logger t op dry eff res l).0
  unfolding audit
  audit-Agrees t op dry eff n res l h = ground arith

  apply_one-Agrees :
      (t : Tweak) (dry : Bool) (op : Operation) (n : ℕ) (res : TweakResult) (w : World S L)
      → Agrees n res
      → Agrees (n + 1) (apply_one E logger t dry op res w).0
  unfolding apply_one
  apply_one-Agrees t dry op n res w h =
      let (eff, s) = apply_op E op dry w.sys in
      audit-Agrees t op dry eff (n + 1) (tally res eff) w.log (tally-Agrees n res eff h)

  apply_all-Agrees :
      (t : Tweak) (dry : Bool) (ops : List Operation) (n : ℕ) (res : TweakResult) (w : World S L)
      → Agrees n res
      → Agrees (n + length ops) (apply_all E logger t dry ops res w).0
  unfolding apply_all
  apply_all-Agrees t dry [] n res w h = omega arith
  apply_all-Agrees t dry (op ∷ ops) n res w h =
      let (res', w') = apply_one E logger t dry op res w in
      let rest : Agrees (n + 1 + length ops) (apply_all E logger t dry ops res' w').0 =
        apply_all-Agrees t dry ops (n + 1) res' w' (apply_one-Agrees t dry op n res w h) in
      ground arith

  -- Every operation of the tweak has one effect and is counted once, as a success or as a failure;
  -- the failures are the effects with an error, and only successes are counted as changes.
  pub apply-Agrees :
      (t : Tweak) (dry : Bool) (w : World S L)
      → Agrees (length t.operations) (apply E logger t dry w).0
  unfolding apply
  apply-Agrees t dry w =
      let h : Agrees (0 + length t.operations)
          (apply_all E logger t dry t.operations (new_result t dry) w).0 =
        apply_all-Agrees t dry t.operations 0 (new_result t dry) w
          (unfold new_result in ground arith) in
      omega arith

-- Failure reports an error exactly where the result counts one.
failure_iff : (res : TweakResult) → (failure res ≡ none) ↔ (res.failed ≡ 0)
unfolding failure
failure_iff res = ground arith
