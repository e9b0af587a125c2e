-- ===== src/Sshexec/Envelope/Params.antt =====
-- The parameter block of an envelope, and what a reader that splits it per line finds there.
use karpenter_provider_ssh.Common.{
  ℕ, String, inl, inr, ◌≡◌, refl, sym, ap, ◌∙◌, Bool, true, false, not, ◌&&◌, ◌||◌, Option, none,
  some, List, [], ◌∷◌, ◌++◌, map, bytes, eqb, eqb_iff, eqb_refl, Bool-cases, arith, if◌then◌else◌,
}
use mathlib.Core.Bool.{false≢true}
use mathlib.Core.List.{append_assoc}
use karpenter_provider_ssh.Exec.{ok}
use karpenter_provider_ssh.Exec.Pure.{require, >>=-eq-ok, require-eq-ok}
use karpenter_provider_ssh.Sshexec.Wire.{Bytes}
use karpenter_provider_ssh.Sshexec.Envelope.{
  is_param_name, all_word_bytes, is_word_byte, has_newline, params_block, param_line,
}

pub has_byte : ℕ → Bytes → Bool
has_byte k [] = false
has_byte k (c ∷ s) = eqb c k || has_byte k s

newline_of : (s : Bytes) → has_newline s ≡ has_byte 10 s
unfolding has_newline has_byte
newline_of [] = refl
newline_of (c ∷ s) = ap (◌||◌ (eqb c 10)) (newline_of s)

clash : (c k : ℕ) → is_word_byte k ≡ false → c ≡ k → is_word_byte c ≡ true → ⊥
clash c k w e h = absurd (false≢true (sym w ∙ (ap is_word_byte (sym e) ∙ h)))

pub words_free :
    (k : ℕ) → is_word_byte k ≡ false → (s : Bytes) → all_word_bytes s ≡ true → has_byte k s ≡ false
unfolding all_word_bytes has_byte
words_free k w [] h = refl
words_free k w (c ∷ s) h = elim (Bool-cases (eqb c k)) [
  | inl same ↦ absurd (clash c k w (ground arith) (ground arith))
  | inr other ↦ rw other (words_free k w s (ground arith))
]

-- The lines of a text whose every line ends in a newline, and the two sides of a separator.
push : ℕ → List Bytes → List Bytes
push c [] = (c ∷ []) ∷ []
push c (l ∷ ls) = (c ∷ l) ∷ ls

pub lines : Bytes → List Bytes
unfolding push
lines [] = []
lines (c ∷ s) = let rest = lines s in if eqb c 10 then [] ∷ rest else push c rest

cons_left : ℕ → Option (Bytes × Bytes) → Option (Bytes × Bytes)
cons_left c none = none
cons_left c (some (a, b)) = some (c ∷ a, b)

unfoldable pub split_at : ℕ → Bytes → Option (Bytes × Bytes)
unfolding cons_left
split_at k [] = none
split_at k (c ∷ s) = let rest = cons_left c (split_at k s) in if eqb c k then some ([], s) else rest

lines-line : (l rest : Bytes) → has_byte 10 l ≡ false → lines (l ++ 10 ∷ rest) ≡ l ∷ lines rest
unfolding lines has_byte
lines-line [] rest h = refl
lines-line (c ∷ l) rest h = ground (arith, lines-line l rest)

pub split_at-append :
    (k : ℕ) (a b : Bytes) → has_byte k a ≡ false → split_at k (a ++ k ∷ b) ≡ some (a, b)
unfolding split_at has_byte
split_at-append k [] b h = ground (arith, eqb_refl k)
split_at-append k (c ∷ a) b h = ground (arith, split_at-append k a b)

has_byte-append : (k : ℕ) (a b : Bytes) → has_byte k (a ++ b) ≡ (has_byte k a || has_byte k b)
unfolding has_byte
has_byte-append k [] b = refl
has_byte-append k (c ∷ a) b = ground (arith, has_byte-append k a b)

pub both : (a b : Bool) → (a && b) ≡ true → (a ≡ true) × (b ≡ true)
both true true h = (refl, refl)
both true false h = absurd (false≢true h)
both false b h = absurd (false≢true h)

prefix_words :
    (k p s1 s2 h u c : ℕ) (rest : Bytes)
    → is_param_name (k ∷ p ∷ s1 ∷ s2 ∷ h ∷ u ∷ c ∷ rest) ≡ true
    → all_word_bytes (k ∷ p ∷ s1 ∷ s2 ∷ h ∷ u ∷ c ∷ rest) ≡ true
unfolding is_param_name
prefix_words k p s1 s2 h u c rest e =
    let (e7, words) = both _ _ e in
    let (e6, word) = both _ _ e7 in
    let (e5, eu) = both _ _ e6 in
    let (e4, eh) = both _ _ e5 in
    let (e3, es2) = both _ _ e4 in
    let (e2, es1) = both _ _ e3 in
    let (ek, ep) = both _ _ e2 in
    rw (
      (eqb_iff k 75).0 ek,
      (eqb_iff p 80).0 ep,
      (eqb_iff s1 83).0 es1,
      (eqb_iff s2 83).0 es2,
      (eqb_iff h 72).0 eh,
      (eqb_iff u 95).0 eu,
      word,
      words,
    )

param_words : (s : Bytes) → is_param_name s ≡ true → all_word_bytes s ≡ true
unfolding is_param_name
param_words (k ∷ p ∷ s1 ∷ s2 ∷ h ∷ u ∷ c ∷ rest) e = prefix_words k p s1 s2 h u c rest e
param_words _ e = cc

name_free :
    (k : ℕ) → is_word_byte k ≡ false → (s : Bytes) → is_param_name s ≡ true → has_byte k s ≡ false
name_free k w s h = words_free k w s (param_words s h)

abbrev pub entry_bytes : String × String → Bytes × Bytes
entry_bytes (k, v) = (bytes k, bytes v)

pub read_params : Bytes → List (Option (Bytes × Bytes))
unfolding lines split_at
read_params block = map (split_at 61) (lines block)

line_free :
    (k v : String)
    → is_param_name (bytes k) ≡ true
    → has_newline (bytes v) ≡ false
    → has_byte 10 (bytes k ++ 61 ∷ bytes v) ≡ false
line_free k v hk hv =
    has_byte-append 10 (bytes k) (61 ∷ bytes v)
    ∙ (rw (name_free 10 refl (bytes k) hk) (unfold has_byte in (sym (newline_of (bytes v)) ∙ hv)))

line_split :
    (k v : String) (block : Bytes)
    → is_param_name (bytes k) ≡ true
    → has_newline (bytes v) ≡ false
    → lines (param_line (k, v) ++ block) ≡ (bytes k ++ 61 ∷ bytes v) ∷ lines block
line_split k v block hk hv =
    rw (← lines-line (bytes k ++ 61 ∷ bytes v) block (line_free k v hk hv))
      (ap lines (simp append_assoc))

params_block-cons :
    (k v : String) (ps : List (String × String)) (block : Bytes)
    → params_block ((k, v) ∷ ps) ≡ ok block
    → (is_param_name (bytes k) ≡ true)
      × (has_newline (bytes v) ≡ false)
      × ((rest : Bytes) × (params_block ps ≡ ok rest) × (block ≡ param_line (k, v) ++ rest))
unfolding params_block
params_block-cons k v ps block e =
    let (_, name, e1) = >>=-eq-ok (require (is_param_name (bytes k)) _) _ e in
    let (_, value, e2) = >>=-eq-ok (require (not (has_newline (bytes v))) _) _ e1 in
    let (rest, others, e3) = >>=-eq-ok (params_block ps) _ e2 in
    let hk = require-eq-ok _ _ name in
    let hv = require-eq-ok _ _ value in (hk, ground arith, (rest, others, ground arith))

params_block-nil : (block : Bytes) → params_block [] ≡ ok block → block ≡ []
unfolding params_block
params_block-nil block e = cc

-- A block that the controller builds is read back, line by line, as exactly the parameters that went
-- in: no name and no value can add, hide or change one.
pub read_params-params_block :
    (ps : List (String × String)) (block : Bytes)
    → params_block ps ≡ ok block
    → read_params block ≡ map (λ p. some (entry_bytes p)) ps
unfolding read_params
read_params-params_block [] block e = rw (params_block-nil block e) refl
read_params-params_block ((k, v) ∷ ps) block e =
    let (hk, hv, (rest, others, same)) = params_block-cons k v ps block e in
    rw
      (
        same,
        line_split k v rest hk hv,
        split_at-append 61 (bytes k) (bytes v) (name_free 61 refl (bytes k) hk),
      )
      (ap (◌∷◌ (some (entry_bytes (k, v)))) (read_params-params_block ps rest others))
