-- ===== src/Frames/Detach.antt =====
-- `FrameGraph::detach` of src/runtime/frame.rs: what the recursion over the children removes.
pub mod Loop
pub mod Unlink
pub mod Recursion
use browserkit.Common.{
  ℕ, zero, suc, ◌+◌, ◌≤◌, ◌≡◌, refl, ap, subst, sym, ◌∙◌, ◌≢◌, ◌⊎◌, inl, inr, Bool, true, false,
  not, ◌||◌, Option, none, some, List, [], ◌∷◌, String, if◌then◌else◌, is_some, Bool-cases,
  Option-cases, ◌==◌, beq_refl, string_eq, length, arith, has, discard, has-discard,
}
use browserkit.Common.Assoc.{
  lookup, remove, modify, contains_key, lookup-remove, lookup-modify, length-modify,
  length-remove-le, length-remove-lt,
}
use browserkit.Frames.Graph.{
  FrameRecord, Frames, FrameGraph, names, drop_child, unlink, without, each, detach_from, detach,
}
use browserkit.Frames.Links.{IsLinked, remove-IsLinked, drop_child-IsLinked}

-- What may differ when frames have been removed: a frame that is left keeps all but some children,
-- its parent is left when it was there, and the main frame is left unless it was removed.
pub record IsTrimmed (g left : FrameGraph) : Type 0 where
  pub kept :
      (id : String) (r : FrameRecord)
      → lookup id left.frames ≡ some r
      → (before : FrameRecord) × (lookup id g.frames ≡ some before)
        × (r ≡ record before { children = r.children })
        × ((child : String) → has child r.children ≡ true → has child before.children ≡ true)
  pub parents :
      (id parent_id : String) (r : FrameRecord)
      → lookup id left.frames ≡ some r
      → r.parent ≡ some parent_id
      → contains_key parent_id g.frames ≡ true
      → contains_key parent_id left.frames ≡ true
  pub main :
      (id : String)
      → left.main_frame_id ≡ some id
      → (g.main_frame_id ≡ some id)
        × (contains_key id g.frames ≡ true → contains_key id left.frames ≡ true)
  pub smaller : length left.frames ≤ length g.frames

pub IsTrimmed-refl : (g : FrameGraph) → IsTrimmed g g
IsTrimmed-refl g = record {
  kept = λ id r h. (r, h, refl, λ child c. c);
  parents = λ id parent_id r h p c. c;
  main = λ id h. (h, λ c. c);
  smaller = omega arith;
}

pub IsTrimmed-trans : (a b c : FrameGraph) → IsTrimmed a b → IsTrimmed b c → IsTrimmed a c
IsTrimmed-trans a b c ab bc = record {
  kept = λ id r h.
      let (r1, h1, e1, s1) = bc.kept id r h in
      let (r2, h2, e2, s2) = ab.kept id r1 h1 in
      (r2, h2, ground arith, λ child x. s2 child (s1 child x));
  parents = λ id parent_id r h p x.
      let (r1, h1, e1, s1) = bc.kept id r h in
      bc.parents id parent_id r h p (ab.parents id parent_id r1 h1 (ground arith) x);
  main =
      λ id h. let (m1, l1) = bc.main id h in let (m2, l2) = ab.main id m1 in (m2, λ x. l1 (l2 x));
  smaller = omega (arith, ab.smaller, bc.smaller);
}

-- A frame and those that hang below it.
pub data Below (m : Frames) (top : String) : String → Type 0 where
  itself : Below m top top
  under :
      {id child : String} (r : FrameRecord)
      → Below m top id
      → lookup id m ≡ some r
      → has child r.children ≡ true
      → Below m top child

-- What one call promises of the graph that it leaves.
pub record IsDetached (id : String) (g left : FrameGraph) : Type 0 where
  pub trimmed : IsTrimmed g left
  pub linked : IsLinked left.frames
  pub gone : lookup id left.frames ≡ none
  pub only :
      (x : String)
      → contains_key x g.frames ≡ true
      → lookup x left.frames ≡ none
      → Below g.frames id x

-- A path downwards in the frames that are left was there before.
pub Below-IsTrimmed :
    (g left : FrameGraph) (top x : String)
    → IsTrimmed g left
    → Below left.frames top x
    → Below g.frames top x
Below-IsTrimmed g left top x t itself = itself
Below-IsTrimmed g left top x t (under {id} r b l h) =
    let (r', l', e', s') = t.kept id r l in under r' (Below-IsTrimmed g left top id t b) l' (s' x h)

-- The same after one frame is removed.
pub Below-without :
    (k : String) (m : Frames) (top x : String) → Below (remove k m) top x → Below m top x
Below-without k m top x itself = itself
Below-without k m top x (under {id} r b l h) =
    under r (Below-without k m top id b) (ground (arith, lookup-remove k id m)) h

pub Below-prefix :
    (m : Frames) (top child x : String) (r : FrameRecord)
    → lookup top m ≡ some r
    → has child r.children ≡ true
    → Below m child x
    → Below m top x
Below-prefix m top child x r l h itself = under r itself l h
Below-prefix m top child x r l h (under {id} s b k c) =
    under s (Below-prefix m top child id r l h b) k c

-- A frame that is gone stays gone.
pub stays_gone :
    (g left : FrameGraph) (x : String)
    → IsTrimmed g left
    → lookup x g.frames ≡ none
    → lookup x left.frames ≡ none
stays_gone g left x t h = elim (Option-cases (lookup x left.frames)) [
  | inl e ↦ e
  | inr (r, e) ↦ let (r', l', e', s') = t.kept x r e in cc
]
