-- ===== src/Diagnostic/Checks/Logs.antt =====
-- The log viewer shows the whole log.
use agent_smith_go.Base.{
  ℕ, ◌≡◌, refl, List, [], ◌∷◌, ◌++◌, arith, Bytes, drop, append_assoc, ◌==◌, if◌then◌else◌,
}
use agent_smith_go.Interpreter.Message.{done}
use agent_smith_go.Diagnostic.Checks.{split_lines, indented, run_live_logs_with}

-- The texts one behind the other.
abbrev pub joined : List Bytes → Bytes
joined [] = []
joined (text ∷ texts) = text ++ joined texts

joined-append : (xs ys : List Bytes) → joined (xs ++ ys) ≡ joined xs ++ joined ys
joined-append [] ys = refl
joined-append (x ∷ xs) ys = rw (joined-append xs ys, append_assoc)

-- Each printed text without its indentation.
abbrev pub unindented : List Bytes → List Bytes
unindented [] = []
unindented (text ∷ texts) = drop 4 text ∷ unindented texts

unindented-append : (xs ys : List Bytes) → unindented (xs ++ ys) ≡ unindented xs ++ unindented ys
unindented-append [] ys = refl
unindented-append (x ∷ xs) ys = rw (unindented-append xs ys)

in_line :
    (c : ℕ) (lines : List Bytes) {s : Bytes}
    → joined lines ≡ s
    → joined (
        if c == 10
        then (c ∷ []) ∷ lines
        else elim lines [ [] ↦ (c ∷ []) ∷ [] | line ∷ rest ↦ (c ∷ line) ∷ rest ])
      ≡ c ∷ s
in_line c [] h = ground arith
in_line c (line ∷ rest) h = ground arith

joined-split_lines : (s : Bytes) → joined (split_lines s) ≡ s
unfolding split_lines
joined-split_lines [] = refl
joined-split_lines (c ∷ s) = in_line c (split_lines s) (joined-split_lines s)

joined-indented : (texts : List Bytes) → joined (unindented (indented texts)) ≡ joined texts
unfolding indented
joined-indented [] = refl
joined-indented ([] ∷ texts) = joined-indented texts
joined-indented ((c ∷ text) ∷ texts) = rw (joined-indented texts)

-- Behind the four spaces in front of each text the log viewer prints the content of the log file and
-- then everything that its later reads bring, byte for byte.
pub run_live_logs_with-whole :
    (content : Bytes) (reads : List Bytes)
    → joined (unindented (run_live_logs_with (done content) reads).1) ≡ content ++ joined reads
unfolding run_live_logs_with
run_live_logs_with-whole content reads = rw (
  unindented-append (indented (split_lines content)) (indented reads),
  joined-append (unindented (indented (split_lines content))) (unindented (indented reads)),
  joined-indented (split_lines content),
  joined-indented reads,
  joined-split_lines content,
)
