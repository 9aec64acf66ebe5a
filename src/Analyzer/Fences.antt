-- ===== src/Analyzer/Fences.antt =====
-- Theorems on ai/analyzer.go: what the clean-up undoes.
use codera.Base.{
  Bool, true, false, some, List, [], ◌∷◌, ◌++◌, Bytes, codes, has_prefix, length, drop, reverse,
  reverse-append, reverse-reverse, ◌≡◌, ◌≢◌, refl, arith,
}
use codera.Analyzer.{
  Analysis, Part, text, Candidate, Generated, response, analysis, trim_prefix, trim_suffix,
  clean_up, blank, prompt, decode_text, decode_clean, analyze_complexity,
}
use codera.Server.Runs.{CreateRunRequest, answered, analyze_code}

has_prefix-append : (p s : Bytes) → has_prefix (p ++ s) p ≡ true
unfolding has_prefix
has_prefix-append [] s = ground arith
has_prefix-append (x ∷ p) s = ground (arith, has_prefix-append p s)

drop-append : (p s : Bytes) → drop (length p) (p ++ s) ≡ s
drop-append [] s = refl
drop-append (x ∷ p) s = drop-append p s

trim_prefix-append : (p s : Bytes) → trim_prefix (p ++ s) p ≡ s
unfolding trim_prefix
trim_prefix-append p s = rw has_prefix-append (drop-append p s)

trim_suffix-append : (s p : Bytes) → trim_suffix (s ++ p) p ≡ s
unfolding trim_suffix
trim_suffix-append s p = rw reverse-append (rw trim_prefix-append (reverse-reverse s))

trim_suffix-absent :
    (s p : Bytes) → has_prefix (reverse s) (reverse p) ≡ false → trim_suffix s p ≡ s
unfolding trim_suffix trim_prefix
trim_suffix-absent s p h = rw h (reverse-reverse s)

-- A JSON object ends with a brace.
abbrev pub object : Bytes → Bytes
object s = s ++ b'}' ∷ []

-- How the model may send it: by itself, or in a Markdown fence whose end is on a line of its own
-- or not.
pub data Fence : Type 0 where
  bare fenced tight : Fence

abbrev pub wrap : Fence → Bytes → Bytes
wrap bare s = s
wrap fenced s = codes "```json\n" ++ (s ++ codes "\n```")
wrap tight s = codes "```json\n" ++ (s ++ codes "```")

object-no_fence : (s : Bytes) → trim_suffix (object s) (codes "```") ≡ object s
object-no_fence s =
    trim_suffix-absent (object s) (codes "```") (unfold has_prefix in rw reverse-append refl)

object-no_line :
    (s : Bytes) → trim_suffix (object s ++ codes "```") (codes "\n```") ≡ object s ++ codes "```"
object-no_line s =
    trim_suffix-absent _ (codes "\n```")
      (unfold has_prefix in rw reverse-append (rw reverse-append refl))

clean_up-fenced : (s : Bytes) → clean_up (wrap fenced (object s)) ≡ object s
unfolding clean_up
clean_up-fenced s =
    rw (trim_prefix-append (codes "```json\n") (object s ++ codes "\n```"))
      (rw trim_suffix-append (object-no_fence s))

clean_up-tight : (s : Bytes) → clean_up (wrap tight (object s)) ≡ object s
unfolding clean_up
clean_up-tight s =
    rw (trim_prefix-append (codes "```json\n") (object s ++ codes "```"))
      (rw object-no_line (trim_suffix-append (object s) (codes "```")))

module _ (decode : Bytes → Analysis → Analysis × Bool) (s : Bytes) (x : Analysis)
    (reads : (a : Analysis) → decode (object s) a ≡ (x, true))
    (rejects : (f : Fence) → f ≢ bare → decode (wrap f (object s)) blank ≡ (blank, false)) where
  decode_text-wrap :
      (f : Fence)
      → decode_text decode (wrap f (object s)) (decode (wrap f (object s)) blank) ≡ analysis x
  unfolding decode_text decode_clean
  decode_text-wrap bare = rw reads refl
  decode_text-wrap fenced = rw (rejects fenced (λ e. cc)) (rw clean_up-fenced (rw reads refl))
  decode_text-wrap tight = rw (rejects tight (λ e. cc)) (rw clean_up-tight (rw reads refl))

  -- If the model's first part is an object that the decoder reads, by itself or in a fence that
  -- the decoder rejects without writing anything, AnalyzeComplexity returns just what the object
  -- says, and analyzeCode answers 200 with it.
  pub wrapped_is_analyzed :
      (generate : Bytes → Generated) (req : CreateRunRequest) (f : Fence) (parts : List Part)
      (more : List Candidate)
      → generate (prompt req.source_code req.language)
        ≡ response (record { content = some (text (wrap f (object s)) ∷ parts) } ∷ more)
      → (analyze_complexity decode generate req.source_code req.language ≡ analysis x)
        × (analyze_code (some (analyze_complexity decode generate)) (some req) ≡ answered 200 x)
  unfolding analyze_complexity analyze_code
  wrapped_is_analyzed generate req f parts more e =
      let it : analyze_complexity decode generate req.source_code req.language ≡ analysis x =
        rw e (decode_text-wrap f) in
      (it, rw e (rw decode_text-wrap refl))
