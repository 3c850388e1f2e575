-- ===== src/Registry/Heads/Latest.antt =====
-- The head of a module is its latest provable version.
use mathlib.Core.List.{Memᴰ}
use mathlib.Core.Path.{subst}
use outbe_circuits.Prelude.{
  ℕ, ◌≡◌, refl, sym, ap, ◌∙◌, ◌⊎◌, inl, inr, Bool, true, false, ◌&&◌, Option, none, some, List, [],
  ◌∷◌, if◌then◌else◌, Bool-cases, All, some_inj,
}
use outbe_circuits.Text.{text_lt}
use outbe_circuits.Slices.{bytes_eq, bytes_eq_iff}
use outbe_circuits.Registry.Manifest.{Loaded}
use outbe_circuits.Registry.Version.{version_key, key_lt, key_lt_irrefl, key_lt_trans, key_lt_asym}
use outbe_circuits.Registry.Ordered.{lookup, lookup-insert}
use outbe_circuits.Registry.Heads.{is_provable, newer, add_head, heads_loop, heads}

-- A provable version of a module.
unfoldable pub is_candidate : List ℕ → Loaded → Bool
is_candidate m l = is_provable l && bytes_eq m l.module_name

-- What is kept for one module.
best_loop : List ℕ → Option Loaded → List Loaded → Option Loaded
best_loop m best [] = best
best_loop m best (l ∷ loaded) =
    best_loop m (if is_candidate m l then some (newer l best) else best) loaded

lookup-add_head :
    (m : List ℕ) (l : Loaded) (head : List (List ℕ × Loaded))
    → lookup bytes_eq m (add_head l head) ≡ (
        if is_candidate m l
        then some (newer l (lookup bytes_eq m head))
        else lookup bytes_eq m head)
unfolding add_head is_candidate
lookup-add_head m l head = elim (Bool-cases (is_provable l)) [
  | inr q ↦ rw q refl
  | inl q ↦ rw q (
      lookup-insert bytes_eq text_lt bytes_eq_iff l.module_name m
        (newer l (lookup bytes_eq l.module_name head)) head
      ∙ at_module (bytes_eq m l.module_name) refl)
]
  where
    at_module :
        (b : Bool)
        → bytes_eq m l.module_name ≡ b
        → (if b
            then some (newer l (lookup bytes_eq l.module_name head))
            else lookup bytes_eq m head)
          ≡ (if b then some (newer l (lookup bytes_eq m head)) else lookup bytes_eq m head)
    at_module true e =
        let same : m ≡ l.module_name = (bytes_eq_iff m l.module_name).0 e in
        ap (λ k. some (newer l (lookup bytes_eq k head))) (sym same)
    at_module false e = refl

lookup-heads_loop :
    (m : List ℕ) (loaded : List Loaded) (head : List (List ℕ × Loaded))
    → lookup bytes_eq m (heads_loop head loaded) ≡ best_loop m (lookup bytes_eq m head) loaded
unfolding heads_loop best_loop
lookup-heads_loop m [] head = refl
lookup-heads_loop m (l ∷ loaded) head =
    lookup-heads_loop m loaded (add_head l head) ∙ rw (lookup-add_head m l head) refl

-- Nothing counts, or a version that counts and is not older than any other that does.
abbrev pub IsLatest : List ℕ → Option Loaded → List Loaded → Type 0
IsLatest m none loaded = All (λ l. is_candidate m l ≡ false) loaded
IsLatest m (some h) loaded =
    Memᴰ h loaded
    × (is_candidate m h ≡ true)
    × All
        (λ l.
          is_candidate m l ≡ true → key_lt (version_key h.version) (version_key l.version) ≡ false)
        loaded

abbrev is_older : Loaded → Loaded → Bool
is_older a b = key_lt (version_key a.version) (version_key b.version)

newer_lem :
    (l : Loaded) (o : Option Loaded)
    → ((newer l o ≡ l) ⊎ (o ≡ some (newer l o)))
      × (is_older (newer l o) l ≡ false)
      × ((c : Loaded) → o ≡ some c → is_older (newer l o) c ≡ false)
newer_lem l none = (inl refl, key_lt_irrefl (version_key l.version), λ c e. cc)
newer_lem l (some cur) =
    elim (Bool-cases (key_lt (version_key cur.version) (version_key l.version))) [
      | inl q ↦ rw q (
        inl refl,
        key_lt_irrefl (version_key l.version),
        λ c e.
            let same : cur ≡ c = some_inj e in
            subst (λ d. is_older l d ≡ false) same
              (key_lt_asym (version_key cur.version) (version_key l.version) q),
      )
      | inr q ↦ rw q (
        inr refl,
        q,
        λ c e.
            let same : cur ≡ c = some_inj e in
            subst (λ d. is_older cur d ≡ false) same (key_lt_irrefl (version_key cur.version)),
      )
    ]

abbrev IsBest : List ℕ → Option Loaded → List Loaded → Option Loaded → Type 0
IsBest m o loaded none = (o ≡ none) × All (λ l. is_candidate m l ≡ false) loaded
IsBest m o loaded (some h) =
    ((o ≡ some h) ⊎ (Memᴰ h loaded × (is_candidate m h ≡ true)))
    × All (λ l. is_candidate m l ≡ true → is_older h l ≡ false) loaded
    × ((c : Loaded) → o ≡ some c → is_older h c ≡ false)

-- A version that counts is taken into account.
taken-IsBest :
    (m : List ℕ) (l : Loaded) (o : Option Loaded) (loaded : List Loaded) (r : Option Loaded)
    → is_candidate m l ≡ true
    → IsBest m (some (newer l o)) loaded r
    → IsBest m o (l ∷ loaded) r
taken-IsBest m l o loaded none counts (e, all) = cc
taken-IsBest m l o loaded (some h) counts (from, all, above) =
    let (which, over_l, over_o) = newer_lem l o in
    let over : is_older h (newer l o) ≡ false = above (newer l o) refl in
    (
      elim from [
        | inl e ↦
            let is : newer l o ≡ h = some_inj e in
            elim which [
              | inl w ↦
                  let at : h ≡ l = sym is ∙ w in
                  inr (Memᴰ.head at, subst (λ x. is_candidate m x ≡ true) (sym at) counts)
              | inr w ↦ inl (w ∙ e)
            ]
        | inr p ↦ inr (Memᴰ.tail p.0, p.1)
      ],
      (
        λ c.
            key_lt_trans (version_key l.version) (version_key (newer l o).version)
              (version_key h.version) over_l over,
        all,
      ),
      λ c e.
          key_lt_trans (version_key c.version) (version_key (newer l o).version)
            (version_key h.version) (over_o c e) over,
    )

skipped-IsBest :
    (m : List ℕ) (l : Loaded) (o : Option Loaded) (loaded : List Loaded) (r : Option Loaded)
    → is_candidate m l ≡ false
    → IsBest m o loaded r
    → IsBest m o (l ∷ loaded) r
skipped-IsBest m l o loaded none counts (e, all) = (e, (counts, all))
skipped-IsBest m l o loaded (some h) counts (from, all, above) =
    (elim from [ inl e ↦ inl e | inr p ↦ inr (Memᴰ.tail p.0, p.1) ], (λ c. cc, all), above)

best_loop-IsBest :
    (m : List ℕ) (loaded : List Loaded) (o : Option Loaded)
    → IsBest m o loaded (best_loop m o loaded)
unfolding best_loop
best_loop-IsBest m [] none = (refl, tt)
best_loop-IsBest m [] (some b) = (
  inl refl,
  tt,
  λ c e. subst (λ d. is_older b d ≡ false) (some_inj e) (key_lt_irrefl (version_key b.version)),
)
best_loop-IsBest m (l ∷ loaded) o = elim (Bool-cases (is_candidate m l)) [
  | inl q ↦ rw q (
      taken-IsBest m l o loaded (best_loop m (some (newer l o)) loaded) q
        (best_loop-IsBest m loaded (some (newer l o))))
  | inr q ↦
      rw q (skipped-IsBest m l o loaded (best_loop m o loaded) q (best_loop-IsBest m loaded o))
]

-- For every module the head is there where some version of it is active with an ABI and bytecode; it is
-- one of these, and none of them has a greater version key.
pub heads-IsLatest :
    (m : List ℕ) (loaded : List Loaded) → IsLatest m (lookup bytes_eq m (heads loaded)) loaded
unfolding heads lookup
heads-IsLatest m loaded =
    rw (lookup-heads_loop m loaded [])
      (latest (best_loop m none loaded) (best_loop-IsBest m loaded none))
  where
    latest : (r : Option Loaded) → IsBest m none loaded r → IsLatest m r loaded
    latest none b = b.1
    latest (some h) (from, all, above) =
        let p : Memᴰ h loaded × (is_candidate m h ≡ true) = elim from [ inl e ↦ cc | inr q ↦ q ] in
        (p.0, p.1, all)
