-- ===== src/Srs/Guards.antt =====
-- srs.rs: what one request for points does to the process and its files.
use outbe_circuits.Prelude.{
  ℕ, ◌≡◌, refl, ap, ◌⊎◌, inl, inr, Option, none, some, List, ◌∷◌, Result, ok, err, panic, map_err,
}
use outbe_circuits.Error.{Error}
use outbe_circuits.Srs.Process.{Host, State, after}
use outbe_circuits.Srs.Pins.{g2}
use outbe_circuits.Srs.Checked.{
  IsPinned, verify_g1-IsPinned, IsCached, IsSourced, Same, Post, Post-bind, Post-fail, Checked,
  choose_g1-Checked,
}
use outbe_circuits.Srs.{
  choose_g1, hand_over, initialise, ensure_given, ensure_srs, local_g1, failed, set_points,
}

-- What a request of `n` points leads to.
pub record Guards (host : Host) (n : ℕ) (s t : State) : Type 0 where
  -- where a number is set, nothing changes
  pub kept : (k : ℕ) → s.points ≡ some k → t ≡ s
  -- the library is given nothing, or once points of this number, from the local file or the network, which
  -- have the pinned digest if the number is pinned
  pub handed :
      (t.handed ≡ s.handed)
      ⊎ ((g1 : List ℕ) × (t.handed ≡ (g1, n) ∷ s.handed)
          × IsSourced host n s g1
          × IsPinned host (g1, n))
  -- and the files are as they were, but for a download at the local path
  pub cached : IsCached host n s t

Same-Guards :
    (host : Host) (n : ℕ) (s t : State) → s.points ≡ none → Same host n s t → Guards host n s t
Same-Guards host n s t fresh same = record {
  kept = λ k e. cc;
  handed = inl same.handed;
  cached = same.cached;
}

unchanged : (host : Host) (n : ℕ) (s : State) → Guards host n s s
unchanged host n s = record { kept = λ k e. refl; handed = inl refl; cached = λ path. inl refl }

handed_Guards :
    (host : Host) (n : ℕ) (g1 : List ℕ) (s t : State) (p : Option ℕ)
    → s.points ≡ none
    → Same host n s t
    → IsSourced host n s g1
    → IsPinned host (g1, n)
    → Guards host n s (record t { handed = (g1, n) ∷ t.handed; points = p })
handed_Guards host n g1 s t p fresh same source pin = record {
  kept = λ k e. cc;
  handed = inr (g1, ap (λ h. (g1, n) ∷ h) same.handed, source, pin);
  cached = same.cached;
}

hand_over-Guards :
    (host : Host) (n : ℕ) (g1 : List ℕ) (s t : State) (r : Result Error (Unit {0}))
    → s.points ≡ none
    → Same host n s t
    → IsSourced host n s g1
    → IsPinned host (g1, n)
    → Post
        (λ a. Guards host n s)
        (Guards host n s)
        (after (λ u. set_points n) (r, record t { handed = (g1, n) ∷ t.handed }))
hand_over-Guards host n g1 s t (ok u) = handed_Guards host n g1 s t _
hand_over-Guards host n g1 s t (err e) = handed_Guards host n g1 s t t.points
hand_over-Guards host n g1 s t panic = handed_Guards host n g1 s t t.points

initialise-Guards :
    (host : Host) (n : ℕ) (s : State)
    → s.points ≡ none
    → Post (λ a. Guards host n s) (Guards host n s) (initialise host n s)
unfolding initialise hand_over
initialise-Guards host n s fresh =
    Post-bind (Checked host n s) (λ u. Guards host n s) (Guards host n s)
      (choose_g1 host n (local_g1 host n s) s) _
      (Post-fail (Checked host n s) (Same host n s) (Guards host n s)
        (choose_g1 host n (local_g1 host n s) s) (λ t. Same-Guards host n s t fresh)
        (choose_g1-Checked host n s (local_g1 host n s) refl))
      λ g1 t c.
        hand_over-Guards host n g1 s t (map_err (failed "srs init: {}") (host.srs_init_srs g1 n g2))
          fresh c.0 c.2 (verify_g1-IsPinned host n g1 c.1)

ended : {A : Type 0} (E : State → Type 0) (r : Result Error A × State) → Post (λ a. E) E r → E r.1
ended E (ok a, t) h = h
ended E (err e, t) h = h
ended E (panic, t) h = h

-- Whatever a request of `n` points answers: where a number of points is set, nothing changes. Else the
-- library is given nothing or, once, what `local_g1` reads or what is downloaded for `n`, under this number;
-- and no file changes but the local one, which may become the download. If `n` is one of the three pinned
-- numbers, what is given and what is kept have the digest pinned for it; for other numbers no digest is known.
pub ensure_srs-Guards : (host : Host) (n : ℕ) (s : State) → Guards host n s (ensure_srs host n s).1
unfolding ensure_srs
ensure_srs-Guards host n s = given s.points refl
  where
    given : (p : Option ℕ) → s.points ≡ p → Guards host n s (ensure_given host n p s).1
    given none e = ended (Guards host n s) (initialise host n s) (initialise-Guards host n s e)
    given (some k) e = unchanged host n s
