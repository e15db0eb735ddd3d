-- ===== src/Memo/Passes.antt =====
-- operator/internal/controller/verdict_memo.go. A pass's memo is changed in place there; here each
-- operation answers the memo it leaves. The caller's `rejected` is a counter.
pub mod Answers
use kraken_d_operator.Base.{
  ℕ, suc, ◌+◌, ◌≤◌, Bool, true, false, ◌||◌, Option, none, some, Option-cases, List, [], ◌∷◌, ◌≡◌,
  ◌≢◌, ◌⊎◌, inl, inr, refl, ap, sym, any, length, Bool-cases, arith, if◌then◌else◌, not,
}
use kraken_d_operator.Base.Maps.{Eq, lookup, insert, delete, lookup-insert, lookup-delete}
use kraken_d_operator.Base.Texts.{Text, text_eq, text_eq_iff, text_key}
use kraken_d_operator.Route.Entries.{NamespacedName, source_eq, source_eq_lem, source_key}
use kraken_d_operator.Route.Admission.{or_empty}
use kraken_d_operator.Check.Verdicts.{Verdict}

abbrev pub VerdictMap : Type 0
VerdictMap = List (Text × Verdict)

abbrev pub VerdictMemo : Type 0
VerdictMemo = List (NamespacedName × VerdictMap)

pub record PassMemo : Type 0 where
  pub kept : VerdictMap
  pub used : VerdictMap

abbrev from_kept : Text → PassMemo → Option Verdict → Option Verdict × PassMemo
from_kept key p none = (none, p)
from_kept key p (some v) = (some v, record p { used = insert key v p.used })

-- `Lookup`: the answer, and the memo afterwards
unfoldable pub look_up : Text → PassMemo → Option Verdict × PassMemo
look_up key p = elim (lookup key p.used) [
  | some v ↦ (some v, p)
  | none ↦ from_kept key p (lookup key p.kept)
]

unfoldable pub store : Text → Verdict → PassMemo → PassMemo
store key v p = record p { used = insert key v p.used }

-- `countedPass.Store`: the number of rejections counted, and the memo afterwards
unfoldable pub counted_store : Text → Verdict → ℕ × PassMemo → ℕ × PassMemo
unfolding store
counted_store key v (rejected, p) = (if not v.ok then suc rejected else rejected, store key v p)

unfoldable pub begin_pass : NamespacedName → VerdictMemo → PassMemo
begin_pass owner memo = record { kept = or_empty (lookup owner memo); used = [] }

-- `maps.Copy`: a map has one value for a key, so the order of its entries does not show
unfoldable pub copy_into : VerdictMap → VerdictMap → VerdictMap
copy_into keep [] = keep
copy_into keep ((key, v) ∷ used) = insert key v (copy_into keep used)

unfoldable pub end_pass : NamespacedName → PassMemo → Bool → VerdictMemo → VerdictMemo
unfolding copy_into
end_pass owner p failed memo =
    insert owner (if failed then copy_into p.kept p.used else p.used) memo

unfoldable pub forget_owner : NamespacedName → VerdictMemo → VerdictMemo
forget_owner owner memo = delete owner memo
