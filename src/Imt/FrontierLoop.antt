-- ===== src/Imt/FrontierLoop.antt =====
-- What `frontier_append` computes on a frontier that fits its leaves.
use outbe_circuits.Prelude.{
  ℕ, zero, suc, ◌+◌, ◌-◌, ◌^◌, ◌≤◌, ◌<◌, ◌≡◌, refl, ap, ◌∙◌, true, false, List, Option, some, none,
  ok, get_elem?, get_or, length, arith, lt→ltb, le→leb, ◌==◌, if◌then◌else◌, Bool-cases, inl, inr,
  ==_iff, ==_refl, ◌>>=◌,
}
use outbe_circuits.Field.{PoseidonHasher}
use outbe_circuits.Imt.Node.{is_left, validate_depth, node_hash}
use outbe_circuits.Imt.Frontier.{frontier_loop, frontier_append, first_change, changed_slot}
use outbe_circuits.Imt.Tree.{trailing_ones}
use outbe_circuits.Imt.Spec.{empty_at, level_at, empties, shift}
use outbe_circuits.Imt.Levels.{above, shift-zero, get_elem?-empties, length-empties}
use outbe_circuits.Imt.Append.{Hashes}
use outbe_circuits.Imt.AppendLaws.{tree_change}
use outbe_circuits.Imt.Trailing.{trailing_ones-le, trailing_ones-odd, trailing_ones-even}

-- A frontier of the leaves `xs`: where the position of the next leaf turns right, it holds the left
-- neighbour that waits there.
pub record IsFrontier {Fr : Type 0} (H : Fr → Fr → Fr) (e : Fr) (depth : ℕ) (frontier xs : List Fr)
    : Type 0 where
  pub has_depth : length frontier ≡ depth
  pub waiting :
      (l : ℕ)
      → l < depth
      → is_left (shift (length xs) l) ≡ false
      → get_elem? frontier l
        ≡ some (get_or (level_at H e xs l) (shift (length xs) l - 1) (empty_at H e l))

module _ {Fr : Type 0} (H : Fr → Fr → Fr) (e : Fr) (xs : List Fr) (c : Fr) where
  -- The first left turn from the level `l` on.
  unfoldable pub change_from : ℕ → ℕ → Option (ℕ × Fr)
  change_from zero l = none
  change_from (suc rounds) l =
      if is_left (shift (length xs) l)
      then some (l, above H e xs (length xs) c l)
      else change_from rounds (suc l)

  change_from-none :
      (rounds l d : ℕ)
      → rounds + l ≡ d
      → d ≤ trailing_ones (length xs)
      → change_from rounds l ≡ none
  unfolding change_from
  change_from-none zero l d q le = refl
  change_from-none (suc rounds) l d q le =
      rw (trailing_ones-odd (length xs) l (omega arith))
        (change_from-none rounds (suc l) d (omega arith) le)

  change_from-some :
      (rounds l d : ℕ)
      → rounds + l ≡ d
      → l ≤ trailing_ones (length xs)
      → trailing_ones (length xs) < d
      → d ≤ 63
      → change_from rounds l
        ≡ some (trailing_ones (length xs), above H e xs (length xs) c (trailing_ones (length xs)))
  unfolding change_from
  change_from-some zero l d q le lt hi = absurd (omega arith)
  change_from-some (suc rounds) l d q le lt hi =
      elim (Bool-cases (l == trailing_ones (length xs))) [
        | inl here ↦ ground (
          arith,
          (==_iff l (trailing_ones (length xs))).0 here,
          ap (λ k. is_left (shift (length xs) k)) ((==_iff l (trailing_ones (length xs))).0 here),
          ap (λ k. above H e xs (length xs) c k) ((==_iff l (trailing_ones (length xs))).0 here),
          trailing_ones-even (length xs) (omega arith),
        )
        | inr later ↦
            rw (trailing_ones-odd (length xs) l (ground arith))
              (change_from-some rounds (suc l) d (omega arith) (ground arith) lt hi)
      ]

abbrev merge : {A : Type 0} → Option A → Option A → Option A
merge none second = second
merge (some a) second = some a

merge_first :
    {Fr : Type 0} (changed : Option (ℕ × Fr)) (c : ℕ × Fr) (later : Option (ℕ × Fr))
    → merge (first_change changed c) later ≡ merge changed (some c)
merge_first none c later = refl
merge_first (some ch) c later = refl

pred_below_two : (n : ℕ) → n < 2 → n - 1 ≡ 0
pred_below_two n lt = omega arith

shift_top : (p d : ℕ) → 1 ≤ d → p < 2 ^ d → shift p (d - 1) < 2
unfolding shift
shift_top p zero lo h = absurd (omega arith)
shift_top p (suc d) lo h =
    let q : suc d - 1 ≡ d = omega arith in rw q (omega (arith, shift-zero p (suc d) h))

module _ {Fr : Type 0} ⦃P : PoseidonHasher Fr⦄ (H : Fr → Fr → Fr) (e domain : Fr) (depth : ℕ)
    (hashes : Hashes domain H) (xs frontier : List Fr) (f : IsFrontier H e depth frontier xs)
    (c : Fr) where
  above_even :
      (l : ℕ)
      → is_left (shift (length xs) l) ≡ true
      → node_hash domain (above H e xs (length xs) c l) (empty_at H e l)
        ≡ ok (above H e xs (length xs) c (suc l))
  unfolding above
  above_even l even = rw even (hashes _ _)

  above_odd :
      (l : ℕ)
      → is_left (shift (length xs) l) ≡ false
      → node_hash domain
          (get_or (level_at H e xs l) (shift (length xs) l - 1) (empty_at H e l))
          (above H e xs (length xs) c l)
        ≡ ok (above H e xs (length xs) c (suc l))
  unfolding above
  above_odd l odd = rw odd (hashes _ _)

  frontier_loop_lem :
      (rounds l : ℕ) (changed : Option (ℕ × Fr))
      → rounds + l ≡ depth
      → frontier_loop domain frontier
          (empties H e depth 0)
          rounds
          l
          (shift (length xs) l)
          (above H e xs (length xs) c l)
          changed
        ≡ ok (above H e xs (length xs) c depth, merge changed (change_from H e xs c rounds l))
  unfolding frontier_loop change_from shift
  frontier_loop_lem zero l none q = ap (λ k. ok (above H e xs (length xs) c k, none)) (omega arith)
  frontier_loop_lem zero l (some ch) q =
      ap (λ k. ok (above H e xs (length xs) c k, some ch)) (omega arith)
  frontier_loop_lem (suc rounds) l changed q = elim (Bool-cases (is_left (shift (length xs) l))) [
    | inl even ↦
        rw (even, frontier_loop, get_elem?-empties H e depth l (omega arith), above_even l even)
          (frontier_loop_lem rounds (suc l) (first_change changed (l, above H e xs (length xs) c l))
              (omega arith)
            ∙ ap (λ o. ok (above H e xs (length xs) c depth, o))
                (merge_first changed (l, above H e xs (length xs) c l)
                  (change_from H e xs c rounds (suc l))))
    | inr odd ↦
        rw (odd, frontier_loop, f.waiting l (omega arith) odd, above_odd l odd)
          (frontier_loop_lem rounds (suc l) changed (omega arith))
  ]

  top_waiting :
      1 ≤ depth
      → length xs < 2 ^ depth
      → trailing_ones (length xs) ≡ depth
      → get_elem? frontier (depth - 1)
        ≡ some (get_or (level_at H e xs (depth - 1)) 0 (empty_at H e (depth - 1)))
  top_waiting lo room full =
      f.waiting (depth - 1) (omega arith) odd
      ∙ ap (λ k. some (get_or (level_at H e xs (depth - 1)) k (empty_at H e (depth - 1))))
          (pred_below_two (shift (length xs) (depth - 1)) (shift_top (length xs) depth lo room))
    where
      odd : is_left (shift (length xs) (depth - 1)) ≡ false
      odd = trailing_ones-odd (length xs) (depth - 1) (omega arith)

  slot_lem :
      1 ≤ depth
      → depth ≤ 63
      → length xs < 2 ^ depth
      → (do
        (level, subtree) ← changed_slot frontier (change_from H e xs c depth 0)
        ok (record {
          changed_level = level;
          new_subtree = subtree;
          new_root = above H e xs (length xs) c depth;
        }))
        ≡ ok (tree_change H e xs c depth)
  unfolding tree_change
  slot_lem lo hi room = elim (Bool-cases (trailing_ones (length xs) == depth)) [
    | inl full ↦ rw (
      full,
      change_from-none H e xs c depth 0 depth (omega arith)
          (omega (arith, (==_iff (trailing_ones (length xs)) depth).0 full)),
      f.has_depth,
      top_waiting lo room ((==_iff (trailing_ones (length xs)) depth).0 full),
    )
    | inr partial ↦ rw (
      partial,
      change_from-some H e xs c depth 0 depth (omega arith) (omega arith)
          (ground (arith, trailing_ones-le (length xs) depth room)) hi,
    )
  ]

  -- The kernel reports the change that the stored tree makes.
  pub frontier_append_lem :
      1 ≤ depth
      → depth ≤ 63
      → length xs < 2 ^ depth
      → frontier_append domain frontier (length xs) c (empties H e depth 0)
        ≡ ok (tree_change H e xs c depth)
  unfolding frontier_append validate_depth shift above
  frontier_append_lem lo hi room =
      rw
        (
          f.has_depth,
          length-empties H e depth 0,
          ==_refl (depth + 1),
          le→leb 1 depth lo,
          le→leb depth 63 hi,
          lt→ltb (length xs) (2 ^ depth) room,
          frontier_loop_lem depth 0 none (omega arith),
        )
        (slot_lem lo hi room)
