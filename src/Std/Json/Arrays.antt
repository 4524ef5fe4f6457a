-- ===== src/Std/Json/Arrays.antt =====
-- Arrays, and the loops that read them.
use ra_common_cpp.Base.{
  List, [], ◌∷◌, ◌≡◌, refl, ap, Bytes, map, ◌++◌, ok-injective, >>=-eq-ok, Result, ok, ◌>>=◌,
}
use ra_common_cpp.Std.Json.{JsonLibrary}

-- A loop that builds a vector; the first exception ends it.
unfoldable pub read_all : {A B : Type 0} → (A → Result B) → List A → Result (List B)
read_all read [] = ok []
read_all read (x ∷ xs) = do y ← read x; ys ← read_all read xs; ok (y ∷ ys)

pub read_all-map :
    {A B : Type 0} (f : A → B) (read : B → Result A)
    → ((a : A) → read (f a) ≡ ok a)
    → (xs : List A) → read_all read (map f xs) ≡ ok xs
unfolding read_all
read_all-map f read back [] = refl
read_all-map f read back (x ∷ xs) = rw (back x, read_all-map f read back xs) refl

pub read_all-last :
    {A B : Type 0} (read : A → Result B) (xs : List A) (ys : List B) (x : A) (y : B)
    → read_all read xs ≡ ok ys
    → read x ≡ ok y
    → read_all read (xs ++ x ∷ []) ≡ ok (ys ++ y ∷ [])
unfolding read_all
read_all-last read [] ys x y h reads =
    let same : [] ≡ ys = ok-injective h in rw (← same, reads) refl
read_all-last read (z ∷ xs) ys x y h reads =
    let (w, (rest, first)) = >>=-eq-ok (λ w. do ws ← read_all read xs; ok (w ∷ ws)) ys (read z) h in
    let (ws, (last, more)) = >>=-eq-ok (λ ws. ok (w ∷ ws)) ys (read_all read xs) rest in
    let same : w ∷ ws ≡ ys = ok-injective last in
    rw (first, read_all-last read xs ws x y more reads) (ap (λ t. ok (t ++ y ∷ [])) same)

module _ {Json : Type 0} (lib : JsonLibrary Json) where
  open lib use {of_string, of_array, get_string, get_array, get_string-of, get_array-of}

  -- `obj[name] = x` and get<A>() for std::vector<std::string>.
  abbrev pub of_strings : List Bytes → Json
  of_strings texts = of_array (map of_string texts)

  unfoldable pub read_strings : Json → Result (List Bytes)
  unfolding read_all
  read_strings j = do values ← get_array j; read_all get_string values

  pub read_strings-of : (texts : List Bytes) → read_strings (of_strings texts) ≡ ok texts
  unfolding read_strings
  read_strings-of texts =
      rw (get_array-of (map of_string texts))
        (read_all-map of_string get_string get_string-of texts)
