-- ===== src/Tests/Analysis.antt =====
-- The theorems on the analyser, at a concrete answer.
use codera.Base.{
  Bool, true, false, some, [], ◌∷◌, Bytes, codes, bytes_eq, ◌≡◌, ◌≢◌, refl, if◌then◌else◌,
}
use codera.Analyzer.{Analysis, text, Generated, response, analysis, blank, analyze_complexity}
use codera.Server.Runs.{CreateRunRequest, answered, analyze_code}
use codera.Analyzer.Fences.{Fence, bare, fenced, tight, object, wrap, wrapped_is_analyzed}
use codera.Tests.Data.{source}

abbrev linear : Analysis
linear = record { time_complexity = codes "O(n)"; space_complexity = codes "O(1)"; feedback = [] }

abbrev body : Bytes
body = codes "{ \"time_complexity\": \"O(n)\" "

-- A decoder that knows one object.
abbrev decode : Bytes → Analysis → Analysis × Bool
decode s a = if bytes_eq s (object body) then (linear, true) else (a, false)

abbrev generate : Bytes → Generated
generate prompt = response (record { content = some (text (wrap fenced (object body)) ∷ []) } ∷ [])

abbrev request : CreateRunRequest
request = record { language = "python"; source_code = source; inputs = [] }

rejects : (f : Fence) → f ≢ bare → decode (wrap f (object body)) blank ≡ (blank, false)
rejects bare h = absurd (h refl)
rejects fenced h = refl
rejects tight h = refl

wrapped_is_analyzed_example :
    (analyze_complexity decode generate source "python" ≡ analysis linear)
    × (analyze_code (some (analyze_complexity decode generate)) (some request)
        ≡ answered 200 linear)
wrapped_is_analyzed_example =
    wrapped_is_analyzed decode body linear (λ a. refl) rejects generate request fenced [] [] refl
