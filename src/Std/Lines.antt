-- ===== src/Std/Lines.antt =====
-- `while (std::getline(stream, item, delim)) parts.push_back(item);`
use ra_common_cpp.Base.{
  ℕ, ◌≡◌, ap, sym, ◌∙◌, List, [], ◌∷◌, ◌++◌, append_assoc, append-nil, Bytes, Lacks, ◌==◌,
  if◌then◌else◌, arith,
}

module _ (delim : ℕ) where
  -- `cur` is the item being read. A delimiter at the very end does not begin another item.
  items : Bytes → Bytes → List Bytes
  items [] cur = cur ∷ []
  items (c ∷ []) cur = (if c == delim then cur else cur ++ c ∷ []) ∷ []
  items (c ∷ d ∷ s) cur =
      let next = items (d ∷ s) [] in
      let same = items (d ∷ s) (cur ++ c ∷ []) in if c == delim then cur ∷ next else same

  -- An item that no delimiter ends.
  items-last : (p cur : Bytes) → Lacks delim p → items p cur ≡ (cur ++ p) ∷ []
  unfolding items
  items-last [] cur h = ap (λ t. t ∷ []) (sym (append-nil cur))
  items-last (c ∷ []) cur h = ground arith
  items-last (c ∷ d ∷ s) cur h =
      ground (arith, items-last (d ∷ s) (cur ++ c ∷ []) h.1, append_assoc cur (c ∷ []) (d ∷ s))

  -- An item with a delimiter, and something behind it.
  items-delim :
      (p cur : Bytes) (x : ℕ) (s : Bytes)
      → Lacks delim p
      → items (p ++ delim ∷ x ∷ s) cur ≡ (cur ++ p) ∷ items (x ∷ s) []
  unfolding items
  items-delim [] cur x s h = ground (arith, append-nil cur)
  items-delim (c ∷ []) cur x s h =
      ground (arith, items-delim [] (cur ++ c ∷ []) x s h.1, append-nil (cur ++ c ∷ []))
  items-delim (c ∷ d ∷ p) cur x s h =
      ground (arith, items-delim (d ∷ p) (cur ++ c ∷ []) x s h.1, append_assoc cur (c ∷ []) (d ∷ p))

unfoldable pub split_lines : ℕ → Bytes → List Bytes
unfolding items
split_lines delim [] = []
split_lines delim (c ∷ s) = items delim (c ∷ s) []

-- An item with a delimiter is split off if anything follows.
pub split_lines_more :
    (delim : ℕ) (p : Bytes) (x : ℕ) (s : Bytes)
    → Lacks delim p
    → split_lines delim (p ++ delim ∷ x ∷ s) ≡ p ∷ split_lines delim (x ∷ s)
unfolding split_lines
split_lines_more delim [] x s h = items-delim delim [] [] x s h
split_lines_more delim (c ∷ p) x s h = items-delim delim (c ∷ p) [] x s h

pub split_lines_last :
    (delim x : ℕ) (q : Bytes) → Lacks delim (x ∷ q) → split_lines delim (x ∷ q) ≡ (x ∷ q) ∷ []
unfolding split_lines
split_lines_last delim x q h = items-last delim (x ∷ q) [] h

pub split_lines_three :
    (delim : ℕ) (p q : Bytes) (x : ℕ) (r : Bytes)
    → Lacks delim p
    → Lacks delim q
    → Lacks delim (x ∷ r)
    → split_lines delim (p ++ delim ∷ (q ++ delim ∷ x ∷ r)) ≡ p ∷ q ∷ (x ∷ r) ∷ []
split_lines_three delim p [] x r hp hq hr =
    split_lines_more delim p delim (x ∷ r) hp
    ∙ ap (◌∷◌ p) (split_lines_more delim [] x r hq ∙ ap (◌∷◌ []) (split_lines_last delim x r hr))
split_lines_three delim p (c ∷ q) x r hp hq hr =
    split_lines_more delim p c (q ++ delim ∷ x ∷ r) hp
    ∙ ap (◌∷◌ p)
        (split_lines_more delim (c ∷ q) x r hq ∙ ap (◌∷◌ (c ∷ q)) (split_lines_last delim x r hr))
