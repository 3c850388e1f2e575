-- ===== src/Imt/FrontierLaws.antt =====
-- `Imt::frontier_append` against `Imt::append`: the stateless kernel and the stored tree.
use outbe_circuits.Prelude.{
  ℕ, zero, suc, ◌+◌, ◌-◌, ◌^◌, ◌≤◌, ◌<◌, ◌≡◌, ◌⊎◌, refl, sym, ap, ◌∙◌, false, List, [], ◌∷◌, ◌++◌,
  some, ok, get_elem?, get_or, set, length, length-set, length-append, get_elem?-set_self,
  get_elem?-set_ne, arith, ltb, Bool-cases, inl, inr,
}
use outbe_circuits.Field.{PoseidonHasher}
use outbe_circuits.Imt.Node.{is_left}
use outbe_circuits.Imt.Frontier.{Append, frontier_append}
use outbe_circuits.Imt.Tree.{Imt, append, trailing_ones}
use outbe_circuits.Imt.Spec.{empty_at, level_at, shift, put}
use outbe_circuits.Imt.Levels.{above, level_bounds, level_at-put, put-length, get_or-put}
use outbe_circuits.Imt.Append.{IsTree, Hashes}
use outbe_circuits.Imt.AppendLaws.{tree_change, append_lem}
use outbe_circuits.Imt.Trailing.{shift_carry, shift_above, carry_left}
use outbe_circuits.Imt.FrontierLoop.{IsFrontier, frontier_append_lem}

get_or-put_before :
    {A : Type 0} (ys : List A) (q j : ℕ) (c d : A)
    → j < q
    → q ≤ length ys
    → get_or (put ys q c) j d ≡ get_or ys j d
unfolding put
get_or-put_before [] q j c d lt le = absurd (omega arith)
get_or-put_before (y ∷ ys) zero j c d lt le = absurd (omega arith)
get_or-put_before (y ∷ ys) (suc q) zero c d lt le = refl
get_or-put_before (y ∷ ys) (suc q) (suc j) c d lt le =
    get_or-put_before ys q j c d (omega arith) (omega arith)

odd_pos : (n : ℕ) → is_left n ≡ false → n - 1 < n
unfolding is_left
odd_pos n odd = ground arith

-- What the longer list has waiting on a level: the new node at the first zero bit, else what waited.
module _ {Fr : Type 0} (H : Fr → Fr → Fr) (e : Fr) (xs : List Fr) (c : Fr) (l : ℕ) where
  bounds :
      (shift (length xs) l ≤ length (level_at H e xs l))
      × (length (level_at H e xs l) ≤ shift (length xs) l + 1)
  bounds = level_bounds H e xs (length xs) (omega arith) (omega arith) l

  longer :
      level_at H e (xs ++ c ∷ []) l
      ≡ put (level_at H e xs l) (shift (length xs) l) (above H e xs (length xs) c l)
  longer =
      ap (λ ys. level_at H e ys l) (sym (put-length xs c))
      ∙ level_at-put H e xs (length xs) (omega arith) (omega arith) c l

  waits_new :
      l ≤ trailing_ones (length xs)
      → get_or (level_at H e (xs ++ c ∷ []) l) (shift (length xs + 1) l - 1) (empty_at H e l)
        ≡ above H e xs (length xs) c l
  waits_new le =
      let q : shift (length xs + 1) l - 1 ≡ shift (length xs) l =
        omega (arith, shift_carry (length xs) l le) in
      rw (longer, q) (get_or-put (level_at H e xs l) (shift (length xs) l) _ _ bounds.0)

  waits_still :
      trailing_ones (length xs) < l
      → l < 64
      → is_left (shift (length xs) l) ≡ false
      → get_or (level_at H e (xs ++ c ∷ []) l) (shift (length xs + 1) l - 1) (empty_at H e l)
        ≡ get_or (level_at H e xs l) (shift (length xs) l - 1) (empty_at H e l)
  waits_still lt hi odd =
      rw (longer, shift_above (length xs) l lt hi)
        (get_or-put_before (level_at H e xs l) (shift (length xs) l) (shift (length xs) l - 1) _ _
          (odd_pos (shift (length xs) l) odd) bounds.0)

-- The slots that wait after the append are those of the longer list.
module _ {Fr : Type 0} (H : Fr → Fr → Fr) (e : Fr) (depth : ℕ) (xs frontier : List Fr) (c : Fr)
    (f : IsFrontier H e depth frontier xs) (hi : depth ≤ 63) where
  partial :
      trailing_ones (length xs) < depth
      → tree_change H e xs c depth ≡ record {
        changed_level = trailing_ones (length xs);
        new_subtree = above H e xs (length xs) c (trailing_ones (length xs));
        new_root = above H e xs (length xs) c depth;
      }
  unfolding tree_change
  partial lt = ground arith

  waits_at :
      (k l : ℕ)
      → k ≡ trailing_ones (length xs)
      → l < depth
      → is_left (shift (length xs + 1) l) ≡ false
      → (l < k) ⊎ ((l ≡ k) ⊎ (k < l))
      → get_elem? (set frontier k (above H e xs (length xs) c k)) l
        ≡ some
            (get_or (level_at H e (xs ++ c ∷ []) l) (shift (length xs + 1) l - 1) (empty_at H e l))
  waits_at k l q lt odd (inl below) = cc (carry_left (length xs) l (omega arith))
  waits_at k l q lt odd (inr (inl here)) =
      rw (waits_new H e xs c l (omega arith), here)
        (get_elem?-set_self frontier k _ (omega (arith, f.has_depth)))
  waits_at k l q lt odd (inr (inr later)) =
      get_elem?-set_ne frontier k l _ (omega arith)
      ∙ f.waiting l lt odd_before
      ∙ ap some (sym (waits_still H e xs c l (omega arith) (omega arith) odd_before))
    where
      odd_before : is_left (shift (length xs) l) ≡ false
      odd_before = rw (← shift_above (length xs) l (omega arith) (omega arith)) odd

  waits :
      (l : ℕ)
      → l < depth
      → is_left (shift (length xs + 1) l) ≡ false
      → get_elem?
          (set frontier
            (tree_change H e xs c depth).changed_level
            (tree_change H e xs c depth).new_subtree)
          l
        ≡ some
            (get_or (level_at H e (xs ++ c ∷ []) l) (shift (length xs + 1) l - 1) (empty_at H e l))
  waits l lt odd = elim (Bool-cases (ltb (trailing_ones (length xs)) depth)) [
    | inl room ↦
        rw (partial (ground arith))
          (waits_at (trailing_ones (length xs)) l refl lt odd (ground arith))
    | inr full ↦ cc (carry_left (length xs) l (ground arith))
  ]

  set-IsFrontier :
      IsFrontier H e depth
        (set frontier
          (tree_change H e xs c depth).changed_level
          (tree_change H e xs c depth).new_subtree)
        (xs ++ c ∷ [])
  set-IsFrontier = record {
    has_depth = length-set frontier _ _ ∙ f.has_depth;
    waiting = λ l lt. rw (length-append xs (c ∷ [])) (waits l lt);
  }

-- Where a frontier fits the stored leaves, `frontier_append` reports what `append` reports.
pub frontier_append-append :
    {Fr : Type 0} ⦃P : PoseidonHasher Fr⦄ (H : Fr → Fr → Fr) (e : Fr) (t : Imt Fr)
    (xs frontier : List Fr) (c : Fr)
    → Hashes t.domain H
    → IsTree H e t xs
    → IsFrontier H e t.depth frontier xs
    → length xs < 2 ^ t.depth
    → (a : Append Fr) × ((append t c).1 ≡ ok (length xs, a))
      × (frontier_append t.domain frontier (length xs) c t.empty_roots ≡ ok a)
      × IsFrontier H e t.depth (set frontier a.changed_level a.new_subtree) (xs ++ c ∷ [])
frontier_append-append H e t xs frontier c hashes w f room = (
  tree_change H e xs c t.depth,
  rw (append_lem H e t xs w hashes c room),
  rw w.stored_empties (
      frontier_append_lem H e t.domain t.depth hashes xs frontier f c w.depth_pos w.depth_max room),
  set-IsFrontier H e t.depth xs frontier c f w.depth_max,
)
