-- ===== src/Master/Config/Jsonc/Comments.antt =====
-- src/ptp_client/ptp/l2master/config.py: _strip_jsonc_comments against a text that is given by its
-- parts.
use ptp_client.Prelude.{
  ℕ, ◌≡◌, ◌≢◌, refl, ap, ◌∙◌, ◌++◌, ◌==◌, ◌&&◌, List, [], ◌∷◌, All, arith, false,
}
use ptp_client.Request.{Text}
use ptp_client.Master.Config.Jsonc.{outside, quoted, line, block, strip_from, strip_jsonc_comments}

-- A character of a string, or an escaped one.
pub data StringPart : Type 0 where
  one escape : ℕ → StringPart

-- A text by its parts: a character, a string, a comment that its line ends, a comment between marks.
pub data Part : Type 0 where
  character : ℕ → Part
  string : List StringPart → Part
  line_comment block_comment : Text → Part

abbrev pub string_text : List StringPart → Text
string_text [] = []
string_text (one c ∷ more) = c ∷ string_text more
string_text (escape c ∷ more) = 92 ∷ c ∷ string_text more

-- The text of the parts.
abbrev pub render : List Part → Text
render [] = []
render (character c ∷ ps) = c ∷ render ps
render (string s ∷ ps) = 34 ∷ (string_text s ++ (34 ∷ render ps))
render (line_comment t ∷ ps) = 47 ∷ 47 ∷ (t ++ (10 ∷ render ps))
render (block_comment t ∷ ps) = 47 ∷ 42 ∷ (t ++ (42 ∷ 47 ∷ render ps))

-- The parts without the comments; of a line comment the end of its line stays.
abbrev pub without_comments : List Part → List Part
without_comments [] = []
without_comments (character c ∷ ps) = character c ∷ without_comments ps
without_comments (string s ∷ ps) = string s ∷ without_comments ps
without_comments (line_comment t ∷ ps) = character 10 ∷ without_comments ps
without_comments (block_comment t ∷ ps) = without_comments ps

abbrev IsStringPart : StringPart → Type 0
IsStringPart (one c) = (c ≢ 34) × (c ≢ 92)
IsStringPart (escape c) = Unit

-- The mark that ends a comment does not occur.
abbrev NoMark : Text → Type 0
NoMark [] = Unit
NoMark (c ∷ []) = Unit
NoMark (c ∷ d ∷ cs) = (((c == 42) && (d == 47)) ≡ false) × NoMark (d ∷ cs)

-- A character by itself is neither a quote nor a slash; a string ends at its quote, a comment at its
-- end.
abbrev pub IsPart : Part → Type 0
IsPart (character c) = (c ≢ 34) × (c ≢ 47)
IsPart (string s) = All IsStringPart s
IsPart (line_comment t) = All (λ c. c ≢ 10) t
IsPart (block_comment t) = NoMark t

strip_string :
    (s : List StringPart) (rest : Text)
    → All IsStringPart s
    → strip_from quoted (string_text s ++ (34 ∷ rest))
      ≡ string_text s ++ (34 ∷ strip_from outside rest)
unfolding strip_from
strip_string [] rest h = refl
strip_string (one c ∷ s) rest (k, h) = ground (arith, strip_string s rest h)
strip_string (escape c ∷ s) rest (k, h) = ap (λ x. 92 ∷ c ∷ x) (strip_string s rest h)

strip_line :
    (t rest : Text)
    → All (λ c. c ≢ 10) t
    → strip_from line (t ++ (10 ∷ rest)) ≡ 10 ∷ strip_from outside rest
unfolding strip_from
strip_line [] rest h = refl
strip_line (c ∷ t) rest (k, h) = ground (arith, strip_line t rest h)

strip_block :
    (t rest : Text) → NoMark t → strip_from block (t ++ (42 ∷ 47 ∷ rest)) ≡ strip_from outside rest
unfolding strip_from
strip_block [] rest h = refl
strip_block (c ∷ []) rest h = ground arith
strip_block (c ∷ d ∷ t) rest (k, h) = rw (strip_from, k) (strip_block (d ∷ t) rest h)

strip_character :
    (c : ℕ) (rest : Text)
    → c ≢ 34
    → c ≢ 47
    → strip_from outside (c ∷ rest) ≡ c ∷ strip_from outside rest
unfolding strip_from
strip_character c [] p q = refl
strip_character c (d ∷ rest) p q = ground arith

strip_open : (s : Text) → strip_from outside (34 ∷ s) ≡ 34 ∷ strip_from quoted s
unfolding strip_from
strip_open [] = refl
strip_open (c ∷ s) = refl

-- `_strip_jsonc_comments` removes the comments and leaves every other part as it is, strings that look
-- like comments included: on the text of any list of parts it gives the text of those without the
-- comments.
pub strip_render :
    (ps : List Part)
    → All IsPart ps
    → strip_jsonc_comments (render ps) ≡ render (without_comments ps)
unfolding strip_jsonc_comments strip_from
strip_render [] h = refl
strip_render (character c ∷ ps) ((p, q), h) =
    strip_character c (render ps) p q ∙ ap (◌∷◌ c) (strip_render ps h)
strip_render (string s ∷ ps) (k, h) =
    strip_open (string_text s ++ (34 ∷ render ps))
    ∙ ap (◌∷◌ 34) (strip_string s (render ps) k)
    ∙ ap (λ x. 34 ∷ (string_text s ++ (34 ∷ x))) (strip_render ps h)
strip_render (line_comment t ∷ ps) (k, h) =
    strip_line t (render ps) k ∙ ap (◌∷◌ 10) (strip_render ps h)
strip_render (block_comment t ∷ ps) (k, h) = strip_block t (render ps) k ∙ strip_render ps h
