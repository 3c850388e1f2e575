-- ===== src/Zkproof/PublicLaws.antt =====
-- `decode_public_words` gives the words after the count, if each spells a field element.
use outbe_circuits.Prelude.{
  ℕ, suc, ◌+◌, ◌*◌, ◌/◌, ◌%◌, ◌^◌, ◌<◌, ◌≡◌, refl, sym, ap, ◌∙◌, inl, inr, false, Option, none,
  some, List, [], ◌∷◌, ◌++◌, arith, Result, ok, err, ltb, if◌then◌else◌, ◌==◌, set, get_elem?,
  replicate, true, ==_refl, Bool-cases, length, take, All, length-append, take-append, drop-append,
}
use mathlib.Core.List.{append_assoc}
use outbe_circuits.Field.{PrimeField, IsLawful}
use outbe_circuits.Bytes.{
  IsBytes, from_be_bytes, to_be_bytes, length-to_be_bytes, from_be_bytes-to_be_bytes,
}
use outbe_circuits.Slices.{slice, slice-append}
use outbe_circuits.Zkproof.Words.{
  ProofMarshalingError, is_canonical_field_word, is_canonical_field_word_iff,
}
use outbe_circuits.Zkproof.Words.ProofMarshalingError.{non_canonical_public_input}
use outbe_circuits.Zkproof.PublicWords.{header_of, chunks, store, words_loop, decode_public_words}

-- One 32-byte word after another.
unfoldable pub concat : List (List ℕ) → List ℕ
concat [] = []
concat (word ∷ words) = word ++ concat words

-- 32 bytes each.
abbrev pub AreWords : List (List ℕ) → Type 0
AreWords = All (λ w. IsBytes w × (length w ≡ 32))

pub length-concat :
    (words : List (List ℕ)) → AreWords words → length (concat words) ≡ length words * 32
unfolding concat
length-concat [] all = omega arith
length-concat (word ∷ words) (w, all) =
    omega (arith, length-append word (concat words), length-concat words all, w)

pub chunks-concat :
    (words : List (List ℕ)) → AreWords words → chunks (length words) (concat words) ≡ words
unfolding chunks concat
chunks-concat [] all = refl
chunks-concat (word ∷ words) (w, all) =
    rw (← w.1, take-append word (concat words), drop-append word (concat words))
      (ap (λ ws. word ∷ ws) (chunks-concat words all))

-- The position of the first word that is no field element, counted from `i`.
unfoldable pub first_invalid : {Fr : Type 0} → PrimeField Fr → ℕ → List (List ℕ) → Option ℕ
first_invalid F i [] = none
first_invalid F i (word ∷ words) =
    let later = first_invalid F (suc i) words in
    if ltb (from_be_bytes word) F.modulus then later else some i

abbrev verdict : List (List ℕ) → Option ℕ → Result ProofMarshalingError (List (List ℕ))
verdict words none = ok words
verdict words (some i) = err (non_canonical_public_input i)

-- What decoding should give for these words.
unfoldable pub outcome :
    {Fr : Type 0} → PrimeField Fr → List (List ℕ) → Result ProofMarshalingError (List (List ℕ))
outcome F words = verdict words (first_invalid F 0 words)

-- Writing and reading the place after `xs`.
set_at :
    {A : Type 0} (xs : List A) (x y : A) (ys : List A)
    → set (xs ++ x ∷ ys) (length xs) y ≡ xs ++ y ∷ ys
set_at [] x y ys = refl
set_at (z ∷ xs) x y ys = ap (λ zs. z ∷ zs) (set_at xs x y ys)

get_at :
    {A : Type 0} (xs : List A) (y : A) (ys : List A) → get_elem? (xs ++ y ∷ ys) (length xs) ≡ some y
get_at [] y ys = refl
get_at (z ∷ xs) y ys = get_at xs y ys

module _ {Fr : Type 0} (F : PrimeField Fr) (lawful : IsLawful F) where
  canonical_test :
      (word : List ℕ)
      → IsBytes word × (length word ≡ 32)
      → is_canonical_field_word F word ≡ ltb (from_be_bytes word) F.modulus
  canonical_test word (bytes, len) =
      ground (arith, is_canonical_field_word_iff F lawful word bytes len)

  words_loop_lem :
      (words done : List (List ℕ)) (i : ℕ) (zeros : List ℕ)
      → i ≡ length done
      → AreWords words
      → words_loop F i (done ++ replicate (length words) zeros) words
        ≡ verdict (done ++ words) (first_invalid F i words)
  unfolding words_loop first_invalid store
  words_loop_lem [] done i zeros e all = ap ok refl
  words_loop_lem (word ∷ words) done i zeros e (w, all) =
      let later : List (List ℕ) = replicate (length words) zeros in
      let inside : ltb (length done) (length (done ++ zeros ∷ later)) ≡ true =
        ground (arith, length-append done (zeros ∷ later)) in
      rw (e, inside, set_at done zeros word later, get_at done word later, canonical_test word w)
        (elim (Bool-cases (ltb (from_be_bytes word) F.modulus)) [
          | inl below ↦
              rw (below, ← e)
                (ap (λ ws. words_loop F (suc i) ws words)
                    (sym (append_assoc done (word ∷ []) later))
                  ∙ words_loop_lem words (done ++ word ∷ []) (suc i) zeros
                      (omega (arith, e, length-append done (word ∷ []))) all
                  ∙ ap (λ ws. verdict ws (first_invalid F (suc i) words))
                      (append_assoc done (word ∷ []) words))
          | inr above ↦ rw (above, ← e) refl
        ])

pub header_of-append : (xs ys : List ℕ) → length xs ≡ 4 → header_of (xs ++ ys) ≡ some xs
unfolding header_of
header_of-append xs ys e =
    let long : ltb (length (xs ++ ys)) 4 ≡ false = ground (arith, length-append xs ys) in
    rw long (ap some (ap (λ n. take n (xs ++ ys)) (sym e) ∙ take-append xs ys))

-- On the wire form of `words` and of the expected length, decoding gives the words where each is below
-- the modulus, and else names the position of the first that is not.
pub decode_public_words-wire :
    {Fr : Type 0} (F : PrimeField Fr) (words : List (List ℕ)) (proof : List ℕ)
    → IsLawful F
    → AreWords words
    → length words < 2 ^ 32
    → decode_public_words F
        (length words)
        (to_be_bytes 4 (length words) ++ (concat words ++ proof))
        (4 + length words * 32 + length proof)
      ≡ outcome F words
unfolding decode_public_words outcome
decode_public_words-wire F words proof lawful all few =
    rw
      (
        total,
        header,
        length-to_be_bytes 4 (length words),
        from_be_bytes-to_be_bytes 4 (length words) (omega arith),
        ==_refl (length words),
        inside,
        ==_refl (4 + length words * 32 + length proof),
        public,
        length-concat words all,
        whole,
        count,
        chunks-concat words all,
      )
      (words_loop_lem F lawful words [] 0 (replicate 32 0) refl all)
  where
    total :
        length (to_be_bytes 4 (length words) ++ (concat words ++ proof))
        ≡ 4 + length words * 32 + length proof
    total = omega (
      arith,
      length-append (to_be_bytes 4 (length words)) (concat words ++ proof),
      length-append (concat words) proof,
      length-to_be_bytes 4 (length words),
      length-concat words all,
    )

    header :
        header_of (to_be_bytes 4 (length words) ++ (concat words ++ proof))
        ≡ some (to_be_bytes 4 (length words))
    header = header_of-append _ _ (length-to_be_bytes 4 (length words))

    inside : ltb (4 + length words * 32 + length proof) (4 + length words * 32) ≡ false
    inside = ground arith

    public :
        slice {E = ProofMarshalingError}
          (to_be_bytes 4 (length words) ++ (concat words ++ proof))
          4
          (4 + length words * 32)
        ≡ ok (concat words)
    public =
        slice-append (to_be_bytes 4 (length words)) (concat words) proof 4 (4 + length words * 32)
          (sym (length-to_be_bytes 4 (length words)))
          (omega (arith, length-to_be_bytes 4 (length words), length-concat words all))

    whole : (length words * 32 % 32 == 0) ≡ true
    whole = ground arith

    count : length words * 32 / 32 ≡ length words
    count = omega arith
