-- ===== src/Page/StateDiff.antt =====
-- src/page/state_diff.rs: what an action has changed on a page. An `i64` is its two's complement, a
-- number below 2 ^ 64, and the differences wrap as in a build without overflow checks.
use browserkit.Common.{
  ℕ, ◌+◌, ◌-◌, ◌%◌, ◌^◌, ◌<◌, ◌≡◌, Bool, not, Option, none, some, String, arith, leb, if◌then◌else◌,
  ◌==◌, string_eq,
}

pub record StateSnapshot : Type 0 where
  pub url : String
  pub title : String
  pub element_count : ℕ

-- `UrlChange` and `TitleChange`.
pub record TextChange : Type 0 where
  pub from : String
  pub to : String

pub record StateDiff : Type 0 where
  pub url_changed : Option TextChange
  pub title_changed : Option TextChange
  pub elements_added : ℕ
  pub elements_removed : ℕ

-- `after as i64 - before as i64`, for numbers of 64 bits.
pub count_diff : (before after : ℕ) → ℕ
count_diff before after = (after + 2 ^ 64 - before) % 2 ^ 64

-- Of an `i64`.
abbrev pub is_negative : ℕ → Bool
is_negative word = leb (2 ^ 63) word

abbrev pub negate : ℕ → ℕ
negate word = (2 ^ 64 - word) % 2 ^ 64

pub compute_state_diff : StateSnapshot → StateSnapshot → StateDiff
unfolding count_diff
compute_state_diff before after =
    let diff = count_diff before.element_count after.element_count in
    record {
      url_changed =
          if not (before.url == after.url)
          then some (record { from = before.url; to = after.url })
          else none;
      title_changed =
          if not (before.title == after.title)
          then some (record { from = before.title; to = after.title })
          else none;
      elements_added = if is_negative diff then 0 else diff;
      elements_removed = if is_negative diff then negate diff else 0;
    }

-- A reader of a diff, who has the old snapshot: the new text of a field, if its old text is the one
-- that the change starts from.
abbrev changed : Option TextChange → String → Option String
changed none old = some old
changed (some c) old = if c.from == old then some c.to else none

-- The snapshot after a diff; `none` if the diff does not start from the snapshot.
pub apply_diff : StateSnapshot → StateDiff → Option StateSnapshot
apply_diff s d = elim (changed d.url_changed s.url) [
  | none ↦ none
  | some url ↦ elim (changed d.title_changed s.title) [
    | none ↦ none
    | some title ↦ some (record {
      url = url;
      title = title;
      element_count = s.element_count + d.elements_added - d.elements_removed;
    })
  ]
]

-- The diff backwards.
abbrev flip : Option TextChange → Option TextChange
flip none = none
flip (some c) = some (record { from = c.to; to = c.from })

pub reverse_diff : StateDiff → StateDiff
reverse_diff d = record {
  url_changed = flip d.url_changed;
  title_changed = flip d.title_changed;
  elements_added = d.elements_removed;
  elements_removed = d.elements_added;
}

-- For counts of elements below 2 ^ 63: a diff holds all that a reader of the old snapshot needs: applied to it, it gives the new one; and
-- the diff of the same snapshots the other way round is the diff reversed.
pub apply-compute_state_diff :
    (before after : StateSnapshot)
    → before.element_count < 2 ^ 63
    → after.element_count < 2 ^ 63
    → (apply_diff before (compute_state_diff before after) ≡ some after)
      × (compute_state_diff after before ≡ reverse_diff (compute_state_diff before after))
unfolding apply_diff compute_state_diff reverse_diff count_diff
apply-compute_state_diff before after few_before few_after = ground (
  arith,
  string_eq.beq_iff before.url after.url,
  string_eq.beq_iff before.title after.title,
  string_eq.beq_iff after.url before.url,
  string_eq.beq_iff after.title before.title,
  string_eq.beq_iff before.url before.url,
  string_eq.beq_iff before.title before.title,
)
