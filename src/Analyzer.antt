-- ===== src/Analyzer.antt =====
-- backend/internal/ai/analyzer.go: AnalyzeComplexity. What the model answers and the JSON codec are
-- arguments.
pub mod Fences
use codera.Base.{
  String, Bool, true, false, Option, none, some, List, [], ◌∷◌, ◌++◌, Bytes, codes, has_prefix,
  length, drop, reverse, if◌then◌else◌,
}
use codera.Domain.{Language}

pub record Analysis : Type 0 where
  pub time_complexity : Bytes
  pub space_complexity : Bytes
  pub feedback : Bytes

-- A part of the content of a candidate: a text, or something else.
pub data Part : Type 0 where
  text : Bytes → Part
  blob : Part

-- The content of a candidate is a pointer.
pub record Candidate : Type 0 where
  pub content : Option (List Part)

pub data Generated : Type 0 where
  generation_failed : Generated
  response : List Candidate → Generated

pub data AnalyzerError : Type 0 where
  no_content empty_response unexpected_type unparsable : AnalyzerError

-- A nil pointer that is read panics.
pub data Answer : Type 0 where
  analysis : Analysis → Answer
  failed : AnalyzerError → Answer
  panicked : Answer

-- strings.TrimPrefix and strings.TrimSuffix
unfoldable pub trim_prefix : Bytes → Bytes → Bytes
unfolding has_prefix
trim_prefix s p = if has_prefix s p then drop (length p) s else s

unfoldable pub trim_suffix : Bytes → Bytes → Bytes
unfolding trim_prefix
trim_suffix s p = reverse (trim_prefix (reverse s) (reverse p))

-- The text without the Markdown around it.
unfoldable pub clean_up : Bytes → Bytes
unfolding trim_prefix trim_suffix
clean_up s =
    trim_suffix (trim_suffix (trim_prefix s (codes "```json\n")) (codes "\n```")) (codes "```")

abbrev pub blank : Analysis
blank = record { time_complexity = []; space_complexity = []; feedback = [] }

unfoldable pub prompt : Bytes → Language → Bytes
prompt source language = codes "Language: " ++ (codes language ++ (codes "\nCode:\n" ++ source))

-- `decode` is json.Unmarshal: the value that it leaves of the one it is given, and whether it
-- returns no error. `generate` is GenerateContent.
module _ (decode : Bytes → Analysis → Analysis × Bool) where
  unfoldable pub decode_clean : Analysis × Bool → Answer
  decode_clean (a, true) = analysis a
  decode_clean (a, false) = failed unparsable

  -- The second attempt starts from what the first one left.
  unfoldable pub decode_text : Bytes → Analysis × Bool → Answer
  unfolding decode_clean clean_up
  decode_text s (a, true) = analysis a
  decode_text s (a, false) = decode_clean (decode (clean_up s) a)

  unfoldable pub of_parts : List Part → Answer
  unfolding decode_text
  of_parts [] = failed empty_response
  of_parts (blob ∷ parts) = failed unexpected_type
  of_parts (text s ∷ parts) = decode_text s (decode s blank)

  unfoldable pub of_content : Option (List Part) → Answer
  unfolding of_parts
  of_content none = panicked
  of_content (some parts) = of_parts parts

  unfoldable pub of_generated : Generated → Answer
  unfolding of_content
  of_generated generation_failed = failed no_content
  of_generated (response []) = failed empty_response
  of_generated (response (c ∷ candidates)) = of_content c.content

  unfoldable pub analyze_complexity : (Bytes → Generated) → Bytes → Language → Answer
  unfolding of_generated prompt
  analyze_complexity generate source language = of_generated (generate (prompt source language))

-- Whether the caller is unwound.
abbrev pub panics : Answer → Bool
panics (analysis a) = false
panics (failed e) = false
panics panicked = true
