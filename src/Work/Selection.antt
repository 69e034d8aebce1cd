-- ===== src/Work/Selection.antt =====
-- src/work/selection.ts: the order in which agents take items. Of the number that a comparison returns only the sign is
-- kept. `localeCompare` is a parameter, which the laws take to be antisymmetric.
use scientific_protocol.Common.{
  ℕ, arith, Bool, true, false, ◌≡◌, refl, sym, ◌∙◌, String, str_eq, ◌==◌, ltb, or_else,
  if◌then◌else◌, Bool-cases, inl, inr, eq_iff, subst,
}
use scientific_protocol.Work.Types.{ScheduledItem}

-- Negative, zero and positive.
pub data Sign : Type 0 where
  before same after : Sign

unfoldable pub opposite : Sign → Sign
opposite Sign.before = Sign.after
opposite Sign.same = Sign.same
opposite Sign.after = Sign.before

abbrev pub timestamp_for_item : ScheduledItem → String
timestamp_for_item entry = or_else entry.routed.item.updated_at entry.routed.item.created_at

-- `left !== right` on Booleans, with the true one first.
unfoldable pub true_first : Bool → Bool → Sign → Sign
true_first true false later = Sign.before
true_first false true later = Sign.after
true_first _ _ later = later

-- `right - left` where the two differ.
unfoldable pub greater_first : ℕ → ℕ → Sign → Sign
greater_first left right later =
    if left == right then later else (if ltb right left then Sign.before else Sign.after)

module _ (locale_compare : String → String → Sign) where
  unfoldable pub compare_claim_work_items_for_selection : ScheduledItem → ScheduledItem → Sign
  compare_claim_work_items_for_selection left right =
      let a = left.scheduling in
      let b = right.scheduling in
      true_first a.needs_minimum_coverage b.needs_minimum_coverage (
        true_first a.reassignment_preferred b.reassignment_preferred (
          true_first a.prefers_fresh_contributor b.prefers_fresh_contributor (
            true_first a.needs_redundant_coverage b.needs_redundant_coverage (
              greater_first a.desired_additional_claims b.desired_additional_claims (
                greater_first left.routed.routing.priority_bps right.routed.routing.priority_bps (
                  if str_eq (timestamp_for_item left) (timestamp_for_item right)
                  then locale_compare left.routed.item.item_id right.routed.item.item_id
                  else locale_compare (timestamp_for_item right) (timestamp_for_item left)))))))

true_first-opposite :
    (a b : Bool) (x y : Sign) → x ≡ opposite y → true_first a b x ≡ opposite (true_first b a y)
unfolding opposite true_first
true_first-opposite a b x y h = ground (arith, h)

greater_first-opposite :
    (a b : ℕ) (x y : Sign) → x ≡ opposite y → greater_first a b x ≡ opposite (greater_first b a y)
unfolding opposite greater_first
greater_first-opposite a b x y h = ground (arith, h)

str_eq_comm : (a b : String) → str_eq a b ≡ str_eq b a
str_eq_comm a b = elim (Bool-cases (str_eq a b)) [
  | inl e ↦ subst (λ x. str_eq a x ≡ str_eq x a) ((eq_iff a b).0 e) refl
  | inr e ↦ elim (Bool-cases (str_eq b a)) [
    | inl k ↦ subst (λ x. str_eq x b ≡ str_eq b x) ((eq_iff b a).0 k) refl
    | inr k ↦ e ∙ sym k
  ]
]

times-opposite :
    (b c : Bool) (x y z w : Sign)
    → b ≡ c
    → x ≡ opposite z
    → y ≡ opposite w
    → (if b then x else y) ≡ opposite (if c then z else w)
unfolding opposite
times-opposite b c x y z w h k l = ground (arith, h, k, l)

-- Where the comparison of texts is antisymmetric, two items compare as opposites in the two orders.
pub compare-opposite :
    (locale_compare : String → String → Sign)
    → ((a b : String) → locale_compare a b ≡ opposite (locale_compare b a))
    → (left right : ScheduledItem)
    → compare_claim_work_items_for_selection locale_compare left right
      ≡ opposite (compare_claim_work_items_for_selection locale_compare right left)
unfolding compare_claim_work_items_for_selection
compare-opposite locale_compare law left right = true_first-opposite _ _ _ _ (
    true_first-opposite _ _ _ _ (
      true_first-opposite _ _ _ _ (
        true_first-opposite _ _ _ _ (
          greater_first-opposite _ _ _ _ (
            greater_first-opposite _ _ _ _ (
              times-opposite _ _ _ _ _ _
                (str_eq_comm (timestamp_for_item left) (timestamp_for_item right))
                (law left.routed.item.item_id right.routed.item.item_id)
                (law (timestamp_for_item right) (timestamp_for_item left))))))))
