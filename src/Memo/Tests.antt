-- ===== src/Memo/Tests.antt =====
-- Runs of the memos, and each theorem at a concrete input.
use kraken_d_operator.Base.{
  ◌||◌, true, false, none, List, [], ◌∷◌, ◌≡◌, ◌↔◌, refl, arith, if◌then◌else◌,
}
use kraken_d_operator.Base.Int.{◌+ℤ◌, pos}
use kraken_d_operator.Base.Maps.{lookup}
use kraken_d_operator.Base.Texts.{codes, text_key}
use kraken_d_operator.Route.Entries.{source_key}
use kraken_d_operator.Route.Examples.{named}
use kraken_d_operator.Route.Admission.{or_empty}
use kraken_d_operator.Check.Verdicts.{Verdict, stage_unknown}
use kraken_d_operator.Memo.Versions.{ConfigMapVersion, has, remember, forget, forget_gateway}
use kraken_d_operator.Memo.Versions.History.{
  Call, call_remember, call_forget, after, Verified, has-Verified,
}
use kraken_d_operator.Memo.Kinds.{
  absent, remember_absent, found_absent, after_events, StillAbsent, absent_iff,
}
use kraken_d_operator.Memo.Passes.{VerdictMemo, look_up, begin_pass, end_pass, counted_store}
use kraken_d_operator.Memo.Passes.Answers.{
  Use, looked_up, stored, after_uses, latest, is_used, end_pass-latest,
}

abbrev first_version : ConfigMapVersion
first_version = record { uid = codes "u"; resource_version = codes "1" }

abbrev calls : List Call
calls =
    call_forget (named "gw") (codes "old")
    ∷ call_remember (named "gw") (codes "config") first_version
    ∷ call_remember (named "gw") (codes "old") first_version
    ∷ []

versions :
    (has (named "gw") (codes "config") first_version (after calls) ≡ true)
    × (has (named "gw") (codes "old") first_version (after calls) ≡ false)
unfolding has remember forget forget_gateway
versions = (refl, refl)

has-Verified_example : Verified (named "gw") (codes "config") first_version calls
unfolding has remember forget forget_gateway
has-Verified_example = has-Verified (named "gw") (codes "config") first_version calls refl

absent_iff_example :
    (absent (codes "HPA") (pos 30000000000) (after_events (found_absent (codes "HPA") (pos 5) ∷ []))
      ≡ true)
    ↔ StillAbsent (codes "HPA") (pos 30000000000) (found_absent (codes "HPA") (pos 5) ∷ [])
absent_iff_example =
    absent_iff (codes "HPA") (pos 30000000000) (found_absent (codes "HPA") (pos 5) ∷ [])
      (omega arith)

kinds :
    (absent (codes "HPA") (pos 30000000000) (after_events (found_absent (codes "HPA") (pos 5) ∷ []))
      ≡ true)
    × (absent
          (codes "HPA")
          (pos 60000000005)
          (after_events (found_absent (codes "HPA") (pos 5) ∷ []))
        ≡ false)
unfolding absent remember_absent ◌+ℤ◌
kinds = (refl, refl)

abbrev passed : Verdict
passed = record { ok = true; output = []; masked = []; stage = stage_unknown }

abbrev failed_check : Verdict
failed_check = record passed { ok = false; output = codes "bad" }

abbrev memo : VerdictMemo
memo = (named "gw", (codes "a", passed) ∷ (codes "b", failed_check) ∷ []) ∷ []

abbrev uses : List Use
uses = looked_up (codes "b") ∷ stored (codes "c") passed ∷ []

counted : (counted_store (codes "k") failed_check (2, begin_pass (named "gw") memo)).0 ≡ 3
unfolding counted_store
counted = refl

end_pass-latest_example :
    ((look_up (codes "a") (
        begin_pass
          (named "gw")
          (end_pass (named "gw") (after_uses uses (begin_pass (named "gw") memo)) false memo))).0
      ≡ (if false || is_used (codes "a") uses
          then latest (codes "a") (or_empty (lookup (named "gw") memo)) uses
          else none))
    × (lookup
          (named "other")
          (end_pass (named "gw") (after_uses uses (begin_pass (named "gw") memo)) false memo)
        ≡ lookup (named "other") memo)
end_pass-latest_example =
    end_pass-latest (named "gw") (named "other") memo (codes "a") uses false
      (λ e. ground (arith, e))
