-- ===== src/Privacy/Exports/Rewrites.antt =====
-- What an operation may do to the table of export artifacts, as a relation between the table before
-- and after it, and what each such rewriting keeps.
use fastapi_saas_template.Prelude.{
  ℕ, ◌≤◌, Bool, true, false, ◌≡◌, refl, sym, subst, List, [], ◌∷◌, ◌++◌, ◌==◌, arith, bit, is_some,
  update, has_key, has_key-update, has_key-append, DistinctKeys, DistinctKeys-append,
  DistinctKeys-update, InTable, AllRows, AllRows-append, AllRows-update, AllRows-InTable,
}
use fastapi_saas_template.Errors.{Result, ok, err}
use fastapi_saas_template.Exec.{continue, ◌>>=◌}
use fastapi_saas_template.Session.{Session, Tx}
use fastapi_saas_template.Models.ExportArtifact.{ExportArtifact, is_processing, key}

-- A worker's token and lease are there just while the artifact is processed, which has a start; and
-- an artifact is delivered once or not at all.
pub record IsTidy (a : ExportArtifact) : Type 0 where
  pub token : is_some a.processing_token ≡ is_processing a.status
  pub lease : is_some a.processing_lease_expires_at ≡ is_processing a.status
  pub started : is_processing a.status ≡ true → is_some a.started_at ≡ true
  pub delivered : a.download_count ≡ bit (is_some a.downloaded_at)

-- A write that keeps a row in order and takes no delivery back.
pub record RowKept (x y : ExportArtifact) : Type 0 where
  pub id : y.id ≡ x.id
  pub tidy : IsTidy x → IsTidy y
  pub counted : IsTidy x → x.download_count ≤ y.download_count

pub data Rewrites : List ExportArtifact → List ExportArtifact → Type 0 where
  same : {xs ys : List ExportArtifact} → ys ≡ xs → Rewrites xs ys
  set :
      {xs ys : List ExportArtifact} (p : ExportArtifact → Bool)
      (f : ExportArtifact → ExportArtifact)
      → ((x : ExportArtifact) → (f x).id ≡ x.id)
      → ((x : ExportArtifact) → DistinctKeys key xs → InTable x xs → p x ≡ true → RowKept x (f x))
      → ys ≡ update p f xs
      → Rewrites xs ys
  insert :
      {xs ys : List ExportArtifact} (x : ExportArtifact)
      → has_key key x.id xs ≡ false
      → IsTidy x
      → ys ≡ xs ++ x ∷ []
      → Rewrites xs ys
  both : {xs ys zs : List ExportArtifact} → Rewrites xs ys → Rewrites ys zs → Rewrites xs zs

-- The primary keys are distinct and every artifact is in order.
pub record ArtifactsSound (xs : List ExportArtifact) : Type 0 where
  pub distinct : DistinctKeys key xs
  pub rows : AllRows IsTidy xs

pub Rewrites-Sound :
    {xs ys : List ExportArtifact} → Rewrites xs ys → ArtifactsSound xs → ArtifactsSound ys
Rewrites-Sound (same e) q = subst ArtifactsSound (sym e) q
Rewrites-Sound {xs = xs} (set p f ids kept e) q = subst ArtifactsSound (sym e) (record {
  distinct = DistinctKeys-update key p f ids xs q.distinct;
  rows = AllRows-update IsTidy p f xs (λ x i h t. (kept x q.distinct i h).tidy t) q.rows;
})
Rewrites-Sound {xs = xs} (insert x fresh tidy e) q = subst ArtifactsSound (sym e) (record {
  distinct = DistinctKeys-append key xs x fresh q.distinct;
  rows = AllRows-append IsTidy xs x q.rows tidy;
})
Rewrites-Sound (both a b) q = Rewrites-Sound b (Rewrites-Sound a q)

-- The artifact is there and was delivered.
abbrev pub CountedAs : ℕ → ExportArtifact → Type 0
CountedAs id a = (a.id == id) ≡ true → 1 ≤ a.download_count

pub record WasDelivered (id : ℕ) (xs : List ExportArtifact) : Type 0 where
  pub there : has_key key id xs ≡ true
  pub counted : AllRows (CountedAs id) xs

pub Rewrites-WasDelivered :
    {xs ys : List ExportArtifact} (id : ℕ)
    → Rewrites xs ys
    → ArtifactsSound xs
    → WasDelivered id xs
    → WasDelivered id ys
Rewrites-WasDelivered id (same e) q d = subst (WasDelivered id) (sym e) d
Rewrites-WasDelivered {xs = xs} id (set p f ids kept e) q d =
    subst (WasDelivered id) (sym e) (record {
      there = rw (has_key-update key p f ids id xs) d.there;
      counted =
          AllRows-update (CountedAs id) p f xs
            (λ x i h c same_id.
              let k = kept x q.distinct i h in
              let before = c (ground (arith, k.id)) in
              let grows = k.counted (AllRows-InTable IsTidy xs x q.rows i) in omega arith)
            d.counted;
    })
Rewrites-WasDelivered {xs = xs} id (insert x fresh tidy e) q d =
    subst (WasDelivered id) (sym e) (record {
      there = rw (has_key-append key id xs x, d.there) refl;
      counted = AllRows-append (CountedAs id) xs x d.counted (λ same_id.
          let is_id : x.id ≡ id = ground arith in absurd (cc (rw is_id at fresh, d.there)));
    })
Rewrites-WasDelivered id (both a b) q d =
    Rewrites-WasDelivered id b (Rewrites-Sound a q) (Rewrites-WasDelivered id a q d)

-- Whether it returns or raises, the operation does no more than rewrite the table.
abbrev pub Keeps : {A : Type 0} → Tx A → Type 0
Keeps m = (s : Session) → Rewrites s.db.export_artifacts (m s).1.db.export_artifacts

pub Keeps-bind :
    {A B : Type 0} (m : Tx A) (f : A → Tx B) → Keeps m → ((a : A) → Keeps (f a)) → Keeps (m >>= f)
unfolding ◌>>=◌
Keeps-bind {A} {B} m f k h s = both (k s) (rest (m s).0 (m s).1)
  where
    rest :
        (r : Result A) (u : Session)
        → Rewrites u.db.export_artifacts (continue r f u).1.db.export_artifacts
    rest (ok a) u = h a u
    rest (err e) u = same refl
