-- ===== src/Anomaly/Embedding/Range.antt =====
-- The embeddings of embedding.py have the dimension asked for and entries between 0.0 and 1.0.
use mathlib.Core.Path.{subst}
use aero_risk_ai.Base.{
  ℕ, zero, suc, ◌+◌, ◌-◌, ◌*◌, ◌%◌, String, ◌≡◌, ◌≢◌, Bool-cases, inl, inr, refl, List, [], ◌∷◌,
  ◌++◌, arith, ltb, str_eq,
}
use aero_risk_ai.Base.Int.{ℤ, pos, negsuc}
use aero_risk_ai.Base.Lists.{
  length, replicate, All, length-append, length-take, length-replicate, All-append, All-take,
  All-replicate,
}
use aero_risk_ai.Base.Outcome.{Outcome, ok, err, value_error, ◌>>=◌, ok-injective}
use aero_risk_ai.Base.Float.{Float, FloatLaws, InUnit, lit-InUnit, min_f-InUnit}
use aero_risk_ai.Anomaly.Embedding.{
  unpack, hash_features, normalized, side_feature, hour_feature, pad, generate_order_embedding,
  cosine_similarity,
}

module _ {F : Type 0} ⦃fl : Float F⦄ where
  length-pad : (dim : ℕ) (fs : List F) → length (pad dim fs) ≡ dim
  unfolding pad
  length-pad dim fs = length-take dim (fs ++ replicate (dim - length fs) (fl.lit 0 1)) (
      omega (
        arith,
        length-append fs (replicate (dim - length fs) (fl.lit 0 1)),
        length-replicate (dim - length fs) (fl.lit 0 1),
      ))

  -- Embeddings of different dimensions are refused.
  cosine_similarity-ne :
      (xs ys : List F)
      → length xs ≢ length ys
      → cosine_similarity xs ys ≡ err (value_error "Embeddings must have same dimension")
  unfolding cosine_similarity
  cosine_similarity-ne xs ys h = ground arith

  module _ (laws : FloatLaws F) where
    normalized-InUnit : (z : ℤ) → let x : F = normalized z in InUnit x
    unfolding normalized
    normalized-InUnit (negsuc n) = lit-InUnit laws 0 1 (omega arith) (omega arith)
    normalized-InUnit (pos n) = elim (Bool-cases (ltb 0 n)) [
      | inl e ↦ rw e (
          min_f-InUnit laws _
            (laws.ratio_unit (n % 1_000_000) 1_000_000 (omega arith) (omega arith) (omega arith)).0)
      | inr e ↦ rw e (lit-InUnit laws 0 1 (omega arith) (omega arith))
    ]

    side_feature-InUnit : (s : String) → let x : F = side_feature s in InUnit x
    unfolding side_feature
    side_feature-InUnit s = elim (Bool-cases (str_eq s "BUY")) [
      | inl e ↦ rw e (lit-InUnit laws 1 1 (omega arith) (omega arith))
      | inr e ↦ rw e (lit-InUnit laws 0 1 (omega arith) (omega arith))
    ]

    -- Whole groups of bytes all unpack, and give features in range, one for each group asked for.
    hash_features-ok :
        (n : ℕ) (digest : List ℕ) (k : ℕ)
        → length digest ≡ 4 * (n + k)
        → (fs : List F) × (hash_features n digest ≡ ok fs) × (length fs ≡ n) × All InUnit fs
    unfolding hash_features
    hash_features-ok zero digest k h = ([], refl, refl, tt)
    hash_features-ok (suc n) [] k h = absurd (omega arith)
    hash_features-ok (suc n) (a ∷ []) k h = absurd (omega arith)
    hash_features-ok (suc n) (a ∷ b ∷ []) k h = absurd (omega arith)
    hash_features-ok (suc n) (a ∷ b ∷ c ∷ []) k h = absurd (omega arith)
    hash_features-ok (suc n) (a ∷ b ∷ c ∷ d ∷ rest) k h =
        let (fs, e, l, u) = hash_features-ok n rest k (omega arith) in
        (
          fl.div (fl.of_int (pos (unpack a b c d % 1000))) (fl.lit 1000 1) ∷ fs,
          rw e,
          omega arith,
          (
            laws.ratio_unit (unpack a b c d % 1000) 1000 (omega arith) (omega arith) (omega arith),
            u,
          ),
        )

    pad-InUnit : (dim : ℕ) (fs : List F) → All InUnit fs → All InUnit (pad dim fs)
    unfolding pad
    pad-InUnit dim fs h = All-take InUnit dim (fs ++ replicate (dim - length fs) (fl.lit 0 1)) (
        All-append InUnit fs (replicate (dim - length fs) (fl.lit 0 1)) h (
          All-replicate InUnit (dim - length fs) (lit-InUnit laws 0 1 (omega arith) (omega arith))))

    hour_feature-InUnit : (t h : F) → hour_feature t ≡ ok h → InUnit h
    unfolding hour_feature
    hour_feature-InUnit t h e = go (fl.trunc _) refl e
      where
        go :
            (o : Outcome ℤ)
            → fl.trunc (fl.div (fl.mod_f t (fl.of_int (pos 86400))) (fl.of_int (pos 3600))) ≡ o
            → (o >>= λ hour. ok (fl.div (fl.of_int hour) (fl.lit 24 1))) ≡ ok h
            → InUnit h
        go (err x) q p = absurd (cc)
        go (ok z) q p =
            let (n, zn, le) = laws.day_hour t z q in
            subst (λ (x : F). InUnit x) (ok-injective p)
              (rw zn (laws.ratio_unit n 24 (omega arith) le (omega arith)))

    -- With a digest of sixteen bytes, as `hashlib.md5` gives, and a timestamp that has an hour, the
    -- embedding has exactly the dimension asked for, padded or cut, and all its entries lie between
    -- 0.0 and 1.0.
    pub generate_order_embedding-ok :
        (md5 : String → List ℕ) (dim : ℕ) (account symbol side : String) (price quantity : ℤ)
        (timestamp hour : F)
        → ((s : String) → length (md5 s) ≡ 16)
        → hour_feature timestamp ≡ ok hour
        → (fs : List F) × (generate_order_embedding md5 dim account symbol side price quantity
              timestamp
            ≡ ok fs)
          × (length fs ≡ dim)
          × All InUnit fs
    unfolding generate_order_embedding
    generate_order_embedding-ok md5 dim account symbol side price quantity timestamp hour h16 eh =
        let (accs, ea, la, ua) = hash_features-ok 4 (md5 account) 0 (h16 account) in
        let (ss, es, ls, us) = hash_features-ok 2 (md5 symbol) 2 (h16 symbol) in
        let rest : List F =
          side_feature side ∷ normalized price ∷ normalized quantity ∷ hour ∷ [] in
        let ur : All InUnit rest = (
          side_feature-InUnit side,
          (
            normalized-InUnit price,
            (normalized-InUnit quantity, (hour_feature-InUnit timestamp hour eh, tt)),
          ),
        ) in
        (
          pad dim (accs ++ (ss ++ rest)),
          rw (ea, es, eh),
          length-pad dim (accs ++ (ss ++ rest)),
          pad-InUnit dim (accs ++ (ss ++ rest))
              (All-append InUnit accs (ss ++ rest) ua (All-append InUnit ss rest us ur)),
        )
