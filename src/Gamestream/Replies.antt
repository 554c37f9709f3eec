-- ===== src/Gamestream/Replies.antt =====
-- crates/ra-gamestream/src/xml.rs: the `<root>` element of a reply.
use remote_access.Base.{
  Bool, ◌&&◌, Option, none, some, Text, lit, text_eq, find, unwrap_or, pos, parse_i32, is_pos, ◌++◌,
  Result, ok, ◌>>=◌, ◌>>◌, ok_or, require, map_err,
}
use remote_access.Gamestream.External.{Libraries}
use remote_access.Gamestream.Errors.{Error, xml, status, missing}

module _ (l : Libraries) where
  pub record Root : Type 0 where
    pub doc : l.Node

  -- The root element is `<root>`, and its status is 200.
  unfoldable pub parse_root : Text → Result Error Root
  parse_root body = do
    doc ← map_err xml (l.parse_document body)
    require (text_eq (l.tag_name doc) (lit "root"))
        (xml (lit "unexpected root element <" ++ l.tag_name doc ++ lit ">"))
    let code =
        unwrap_or (parse_i32 (unwrap_or (l.attribute doc (lit "status_code")) (lit "0"))) (pos 0)
    require (is_pos 200 code)
        (status code (unwrap_or (l.attribute doc (lit "status_message")) (lit "")))
    ok (record { doc = doc })

  -- `n.is_element() && n.tag_name().name() == name`
  abbrev pub is_named : Text → l.Node → Bool
  is_named name n = l.is_element n && text_eq (l.tag_name n) name

  -- The text of the first child element of that name
  unfoldable pub child_text : l.Node → Text → Option Text
  child_text n name = elim (find (is_named name) (l.children n)) [ none ↦ none | some c ↦ l.text c ]

  unfoldable pub child : Root → Text → Option Text
  unfolding child_text
  child root name = child_text root.doc name

  unfoldable pub required : Root → Text → Result Error Text
  unfolding child
  required root name = ok_or (child root name) (missing name)
