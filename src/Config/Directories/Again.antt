-- ===== src/Config/Directories/Again.antt =====
-- AppDir called again after it has made the directories.
use ra_common_cpp.Base.{
  true, false, ◌≡◌, refl, sym, ap, ◌∙◌, ◌⊎◌, ok-injective, arith, Error, List, inl, inr, Bool-cases,
  [], ◌∷◌, ◌++◌, Bytes, Result, ok, err,
}
use ra_common_cpp.Config.Directories.{
  Mkdir, zero_returned, failed_with, eexist, is_failure, make_segments, app_dir,
}

-- What mkdir(2) says: after a success the path exists; EEXIST is that it exists, as a directory or
-- not; a path that exists is answered with EEXIST; and no call takes a path away.
pub record FollowsManual {Files : Type 0} (mkdir : Files → Bytes → Mkdir × Files) : Type 1 where
  pub Exists : Bytes → Files → Type 0
  pub makes :
      (files : Files) (path : Bytes)
      → (mkdir files path).0 ≡ zero_returned
      → Exists path (mkdir files path).1
  pub finds :
      (files : Files) (path : Bytes)
      → (mkdir files path).0 ≡ failed_with eexist
      → Exists path (mkdir files path).1
  pub answers :
      (files : Files) (path : Bytes) → Exists path files → (mkdir files path).0 ≡ failed_with eexist
  pub keeps :
      (files : Files) (path other : Bytes) → Exists other files → Exists other (mkdir files path).1

passes-cases : (m : Mkdir) → is_failure m ≡ false → (m ≡ zero_returned) ⊎ (m ≡ failed_with eexist)
unfolding is_failure
passes-cases zero_returned e = inl refl
passes-cases (failed_with errno) e =
    let same : errno ≡ eexist = ground arith in inr (ap failed_with same)

err-pair :
    {Files : Type 0} (x : Error) (dir : Bytes) (state last : Files)
    → ¬ (◌≡◌ {A = Result Bytes × Files} (err x, state) (ok dir, last))
err-pair x dir state last e = let wrong : err x ≡ ok dir = ap (λ p. p.0) e in cc

module _ {Files : Type 0} (mkdir : Files → Bytes → Mkdir × Files) (fs : FollowsManual mkdir) where
  open fs use {Exists, makes, finds, answers, keeps}

  exists_after :
      (files : Files) (path : Bytes)
      → is_failure (mkdir files path).0 ≡ false
      → Exists path (mkdir files path).1
  unfolding is_failure
  exists_after files path e = elim (passes-cases (mkdir files path).0 e) [
    | inl made ↦ makes files path made
    | inr found ↦ finds files path found
  ]

  passes :
      (files : Files) (path : Bytes) → Exists path files → is_failure (mkdir files path).0 ≡ false
  unfolding is_failure
  passes files path there = rw (answers files path there) refl

  abbrev first : Bytes → Bytes → Bytes
  first base group = base ++ b'/' ∷ group

  abbrev second : Bytes → Bytes → Bytes → Bytes
  second base group app = first base group ++ b'/' ∷ app

  -- The state after both calls of mkdir.
  abbrev pub after : Bytes → Bytes → Bytes → Files → Files
  after base group app files = (mkdir (mkdir files (first base group)).1 (second base group app)).1

  -- Neither call is a failure.
  abbrev Passes : Bytes → Bytes → Bytes → Files → Type 0
  Passes base group app files =
      (is_failure (mkdir files (first base group)).0 ≡ false)
      × (is_failure (mkdir (mkdir files (first base group)).1 (second base group app)).0 ≡ false)

  app_dir-Passes :
      (base group app dir : Bytes) (files last : Files)
      → app_dir mkdir base group app true files ≡ (ok dir, last)
      → Passes base group app files
        × (last ≡ after base group app files)
        × (dir ≡ base ++ b'/' ∷ (group ++ b'/' ∷ app))
  unfolding app_dir make_segments
  app_dir-Passes base group app dir files last =
      elim (Bool-cases (is_failure (mkdir files (first base group)).0)) [
        | inl e ↦ rw e (λ returns. absurd (err-pair _ dir _ last returns))
        | inr e ↦
            elim (Bool-cases
              (is_failure (mkdir (mkdir files (first base group)).1 (second base group app)).0)) [
                | inl e' ↦ rw (e, e') (λ returns. absurd (err-pair _ dir _ last returns))
                | inr e' ↦
                    rw (e, e')
                      (λ returns.
                        let at : base ++ b'/' ∷ (group ++ b'/' ∷ app) ≡ dir =
                          ok-injective (ap (λ p. p.0) returns) in
                        ((refl, refl), sym (ap (λ p. p.1) returns), sym at))
              ]
      ]

  Passes-app_dir :
      (base group app : Bytes) (files : Files)
      → Passes base group app files
      → app_dir mkdir base group app true files
        ≡ (ok (base ++ b'/' ∷ (group ++ b'/' ∷ app)), after base group app files)
  unfolding app_dir make_segments
  Passes-app_dir base group app files (one, two) = rw (one, two) refl

  -- Further calls of mkdir.
  abbrev pub mkdirs : List Bytes → Files → Files
  mkdirs [] files = files
  mkdirs (path ∷ paths) files = mkdirs paths (mkdir files path).1

  kept :
      (paths : List Bytes) (files : Files) (path : Bytes)
      → Exists path files
      → Exists path (mkdirs paths files)
  kept [] files path there = there
  kept (other ∷ paths) files path there = kept paths _ path (keeps files other path there)

  -- Over a mkdir that does what its manual says (a path exists after a success and where EEXIST
  -- is reported, a path that exists is answered with EEXIST, and no call takes a path away): once
  -- AppDir that is told to create has returned a directory, base/group and base/group/app exist,
  -- and AppDir called again, also after any other calls of mkdir, does not fail but returns the
  -- same directory.
  pub app_dir_again :
      (base group app dir : Bytes) (files last : Files)
      → app_dir mkdir base group app true files ≡ (ok dir, last)
      → Exists (first base group) last
        × Exists (second base group app) last
        × ((others : List Bytes)
            → (app_dir mkdir base group app true (mkdirs others last)).0 ≡ ok dir)
  app_dir_again base group app dir files last returns =
      let ((one, two), ends, is_dir) = app_dir-Passes base group app dir files last returns in
      let there : Exists (first base group) last =
        rw ends (keeps _ _ _ (exists_after files (first base group) one)) in
      let there' : Exists (second base group app) last = rw ends (exists_after _ _ two) in
      (
        there,
        there',
        λ others.
            let now = mkdirs others last in
            let passed : Passes base group app now = (
              passes now (first base group) (kept others last _ there),
              passes _ (second base group app) (keeps now _ _ (kept others last _ there')),
            ) in
            ap (λ p. p.0) (Passes-app_dir base group app now passed) ∙ ap ok (sym is_dir),
      )
