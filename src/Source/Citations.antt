-- ===== src/Source/Citations.antt =====
-- internal/source/chatgpt/parser.go: the markers of citations in a text, and what replaces them.
use gpt_owu_bridge.Base.{
  String, List, [], ◌∷◌, Map, Option, none, some, Bool, false, not, ◌&&◌, ◌||◌, ◌==◌, text_eq,
  if◌then◌else◌, joined,
}
use gpt_owu_bridge.Source.Values.{
  Value, Library, Url, as_text, as_object, array_at, text_at, or_bare, or_empty,
}

module _ (l : Library) where
  abbrev safe_url : Option Url → String
  safe_url none = ""
  safe_url (some u) =
      if not (u.scheme == "https") && not (u.scheme == "http") || u.host == ""
      then ""
      else l.escape_address u.printed

  unfoldable pub safe_web_url : String → String
  safe_web_url raw = safe_url (l.parse_url raw)

  abbrev hostname : Option Url → String
  hostname none = ""
  hostname (some u) = u.hostname

  -- The first text that is set.
  abbrev first_set : String → String → String
  first_set s t = if s == "" then t else s

  abbrev label_of : Map Value → String
  label_of entry = first_set (text_at entry "attribution") (
      first_set (text_at entry "title")
        (first_set (hostname (l.parse_url (text_at entry "url"))) "source"))

  unfoldable pub markdown_source : Map Value → String
  markdown_source entry =
      let safe = safe_web_url (text_at entry "url") in
      if safe == ""
      then ""
      else joined ("[" ∷ l.escape_label (label_of entry) ∷ "](" ∷ safe ∷ ")" ∷ [])

  -- The first replacement that is not empty among the entries of a list, or one given.
  abbrev first_source : List Value → String → String
  first_source [] otherwise = otherwise
  first_source (v ∷ vs) otherwise =
      first_set (markdown_source (or_bare (as_object v))) (first_source vs otherwise)

  abbrev first_url : List Value → String
  first_url [] = "[source]"
  first_url (v ∷ vs) =
      let safe = safe_web_url (or_empty (as_text v)) in
      let rest = first_url vs in if safe == "" then rest else joined ("[source](" ∷ safe ∷ ")" ∷ [])

  unfoldable pub citation_replacement : Map Value → String
  citation_replacement reference = first_source (array_at reference "items") (
      first_source (array_at reference "sources") (
        first_source (array_at reference "fallback_items")
          (first_url (array_at reference "safe_urls"))))

  -- One replacement in each part; the flag says whether any part has changed.
  unfoldable pub rewrite : (String → String) → List String → List String × Bool
  rewrite f [] = ([], false)
  rewrite f (part ∷ parts) =
      let (rest, changed) = rewrite f parts in (f part ∷ rest, not (f part == part) || changed)

  abbrev and_then : (String → String) → List String × Bool → List String × Bool
  and_then f (parts, degraded) =
      let (updated, changed) = rewrite f parts in (updated, degraded || changed)

  abbrev apply_reference : Map Value → List String × Bool → List String × Bool
  apply_reference reference state =
      let matched = text_at reference "matched_text" in
      if not (l.is_citation matched)
      then state
      else and_then (λ part. l.replace_all part matched (citation_replacement reference)) state

  unfoldable pub apply_references : List Value → List String × Bool → List String × Bool
  apply_references [] state = state
  apply_references (v ∷ vs) state =
      apply_references vs (apply_reference (or_bare (as_object v)) state)

  -- `degradeCitations`.
  unfoldable pub degrade_citations : List String → Map Value → List String × Bool
  degrade_citations parts metadata =
      and_then (λ part. l.replace_citations part "[source]")
        (apply_references (array_at metadata "citations")
          (apply_references (array_at metadata "content_references") (parts, false)))
