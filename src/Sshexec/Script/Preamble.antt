-- ===== src/Sshexec/Script/Preamble.antt =====
-- What a POSIX shell makes of the preamble: every variable gets its value, and nothing else runs.
use karpenter_provider_ssh.Common.{
  ℕ, zero, suc, map, length, String, inl, inr, ◌≡◌, refl, ap, ◌∙◌, Bool, true, ◌&&◌, ◌||◌, Option,
  none, some, List, [], ◌∷◌, ◌++◌, bytes, leb, eqb, eqb_iff, eqb_refl, Bool-cases, arith,
  if◌then◌else◌,
}
use mathlib.Core.List.{append_assoc, append-nil}
use karpenter_provider_ssh.Exec.{ok}
use karpenter_provider_ssh.Exec.Pure.{require, >>=-eq-ok, require-eq-ok}
use karpenter_provider_ssh.Sshexec.Wire.{Bytes}
use karpenter_provider_ssh.Sshexec.Envelope.{all_word_bytes, is_word_byte}
use karpenter_provider_ssh.Sshexec.Envelope.Params.{
  words_free, split_at, split_at-append, entry_bytes,
}
use karpenter_provider_ssh.Sshexec.Script.{
  is_env_name, quote_body, shell_quote, exports, export_line,
}

-- How a shell reads a word: outside quotes, a quote opens them, a backslash takes the next byte as
-- it is, and a newline ends the word; inside single quotes every byte but the quote stands for
-- itself. Anything else outside quotes is refused here, since the shell may act on it.
pub data Mode : Type 0 where
  plain quoted escaped : Mode

emit : ℕ → Option (Bytes × Bytes) → Option (Bytes × Bytes)
emit c none = none
emit c (some (word, rest)) = some (c ∷ word, rest)

pub shell_word : Mode → Bytes → Option (Bytes × Bytes)
unfolding emit
shell_word plain [] = some ([], [])
shell_word quoted [] = none
shell_word escaped [] = none
shell_word plain (c ∷ s) =
    let open_quote = shell_word quoted s in
    let escape = shell_word escaped s in
    if eqb c 39
    then open_quote
    else if eqb c 92
    then escape
    else if eqb c 10
    then some ([], c ∷ s)
    else none
shell_word quoted (c ∷ s) =
    let close_quote = shell_word plain s in
    let inside = emit c (shell_word quoted s) in if eqb c 39 then close_quote else inside
shell_word escaped (c ∷ s) = emit c (shell_word plain s)

quoted_lem :
    (s t : Bytes) (w : Bytes × Bytes)
    → shell_word plain t ≡ some w
    → shell_word quoted (quote_body s ++ 39 ∷ t) ≡ some (s ++ w.0, w.1)
unfolding shell_word quote_body
quoted_lem [] t w h = h
quoted_lem (c ∷ s) t w h = elim (Bool-cases (eqb c 39)) [
  | inl quote ↦ rw quote (rw (quoted_lem s t w h) (rw ((eqb_iff c 39).0 quote)))
  | inr other ↦ rw other (rw other (rw (quoted_lem s t w h) refl))
]

-- A shell reads a quoted value back as the value, whatever bytes it holds, and stops at the newline.
pub shell_word-shell_quote :
    (s rest : Bytes) → shell_word plain (shell_quote s ++ 10 ∷ rest) ≡ some (s, 10 ∷ rest)
unfolding shell_word shell_quote
shell_word-shell_quote s rest =
    ap (shell_word plain) (ap (◌∷◌ 39) (append_assoc (quote_body s) (39 ∷ []) (10 ∷ rest)))
    ∙ quoted_lem s (10 ∷ rest) ([], 10 ∷ rest) refl
    ∙ ap (λ (v : Bytes). some (v, 10 ∷ rest)) (append-nil s)

-- A reader of the preamble: `export `, a name up to the equals sign, a word, a newline.
strip : Bytes → Bytes → Option Bytes
strip [] s = some s
strip (c ∷ p) [] = none
strip (c ∷ p) (d ∷ s) = let rest = strip p s in if eqb c d then rest else none

strip-append : (p s : Bytes) → strip p (p ++ s) ≡ some s
unfolding strip
strip-append [] s = refl
strip-append (c ∷ p) s = rw (eqb_refl c) (strip-append p s)

end_line : Bytes → Option (Bytes × Bytes) → Option ((Bytes × Bytes) × Bytes)
end_line k none = none
end_line k (some (v, [])) = none
end_line k (some (v, c ∷ rest)) = some ((k, v), rest)

read_value : Option (Bytes × Bytes) → Option ((Bytes × Bytes) × Bytes)
unfolding end_line
read_value none = none
read_value (some (k, rest)) = end_line k (shell_word plain rest)

read_name : Option Bytes → Option ((Bytes × Bytes) × Bytes)
unfolding read_value
read_name none = none
read_name (some b) = read_value (split_at 61 b)

abbrev export_word : Bytes
export_word = 101 ∷ 120 ∷ 112 ∷ 111 ∷ 114 ∷ 116 ∷ 32 ∷ []

abbrev and_then :
    Option ((Bytes × Bytes) × Bytes)
    → (Bytes → Option (List (Bytes × Bytes) × Bytes))
    → Option (List (Bytes × Bytes) × Bytes)
and_then none more = none
and_then (some (e, rest)) more = elim (more rest) [
  | none ↦ none
  | some (es, end) ↦ some (e ∷ es, end)
]

-- That many exports, and what follows them.
pub read_exports : ℕ → Bytes → Option (List (Bytes × Bytes) × Bytes)
unfolding read_name strip
read_exports zero b = some ([], b)
read_exports (suc n) b = and_then (read_name (strip export_word b)) (read_exports n)

env_word :
    (c : ℕ) (b : Bool)
    → ((leb b'A' c && leb c b'Z' || leb b'a' c && leb c b'z' || eqb c b'_') && b) ≡ true
    → (is_word_byte c && b) ≡ true
env_word c b h = ground arith

env_words : (s : Bytes) → is_env_name s ≡ true → all_word_bytes s ≡ true
unfolding is_env_name all_word_bytes
env_words [] e = cc
env_words (c ∷ rest) e = env_word c (all_word_bytes rest) e

read_value_lem :
    (k v rest : Bytes) → read_value (some (k, shell_quote v ++ 10 ∷ rest)) ≡ some ((k, v), rest)
unfolding read_value
read_value_lem k v rest = rw (shell_word-shell_quote v rest)

line_eq :
    (k v : String) (rest : Bytes)
    → export_line (k, v) ++ rest
      ≡ export_word ++ (bytes k ++ 61 ∷ (shell_quote (bytes v) ++ 10 ∷ rest))
line_eq k v rest = ap (◌++◌ export_word) (
    append_assoc (bytes k) (61 ∷ (shell_quote (bytes v) ++ (10 ∷ []))) rest
    ∙ ap (λ (x : Bytes). bytes k ++ 61 ∷ x) (append_assoc (shell_quote (bytes v)) (10 ∷ []) rest))

read_line :
    (k v : String) (rest : Bytes)
    → is_env_name (bytes k) ≡ true
    → read_name (strip export_word (export_line (k, v) ++ rest)) ≡ some (entry_bytes (k, v), rest)
unfolding read_name
read_line k v rest h =
    ap (λ (x : Bytes). read_name (strip export_word x)) (line_eq k v rest)
    ∙ ap read_name (strip-append export_word (bytes k ++ 61 ∷ (shell_quote (bytes v) ++ 10 ∷ rest)))
    ∙ ap read_value (
        split_at-append 61 (bytes k) (shell_quote (bytes v) ++ 10 ∷ rest)
          (words_free 61 refl (bytes k) (env_words (bytes k) h)))
    ∙ read_value_lem (bytes k) (bytes v) rest

exports-cons :
    (k v : String) (env : List (String × String)) (out : Bytes)
    → exports ((k, v) ∷ env) ≡ ok out
    → (is_env_name (bytes k) ≡ true)
      × ((rest : Bytes) × (exports env ≡ ok rest) × (out ≡ export_line (k, v) ++ rest))
unfolding exports
exports-cons k v env out e =
    let (_, name, e1) = >>=-eq-ok (require (is_env_name (bytes k)) _) _ e in
    let (rest, others, e2) = >>=-eq-ok (exports env) _ e1 in
    (require-eq-ok _ _ name, (rest, others, ground arith))

exports-nil : (out : Bytes) → exports [] ≡ ok out → out ≡ []
unfolding exports
exports-nil out e = cc

read_first :
    (k v : String) (rest script : Bytes)
    → is_env_name (bytes k) ≡ true
    → read_name (strip export_word ((export_line (k, v) ++ rest) ++ script))
      ≡ some (entry_bytes (k, v), rest ++ script)
read_first k v rest script h =
    ap (λ (x : Bytes). read_name (strip export_word x))
      (append_assoc (export_line (k, v)) rest script)
    ∙ read_line k v (rest ++ script) h

-- A shell that reads the preamble exports exactly the variables of the environment, each with its
-- own value, and goes on with the script: no value can smuggle in shell syntax.
pub read_exports-exports :
    (env : List (String × String)) (out script : Bytes)
    → exports env ≡ ok out
    → read_exports (length env) (out ++ script) ≡ some (map entry_bytes env, script)
unfolding read_exports
read_exports-exports [] out script e = rw (exports-nil out e) refl
read_exports-exports ((k, v) ∷ env) out script e =
    let (name, (rest, others, same)) = exports-cons k v env out e in
    ap (λ (b : Bytes). read_exports (suc (length env)) (b ++ script)) same
    ∙ ap (λ x. and_then x (read_exports (length env))) (read_first k v rest script name)
    ∙ rw (read_exports-exports env rest script others, and_then) refl
