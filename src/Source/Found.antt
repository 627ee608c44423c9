-- ===== src/Source/Found.antt =====
-- internal/source/chatgpt/parser.go: the messages that the loop has found.
use gpt_owu_bridge.Base.{
  ℕ, ◌+◌, ◌≤◌, String, ◌≡◌, refl, ◌≢◌, ◌∙◌, sym, ap, subst, List, [], ◌∷◌, ◌++◌, Map, Option, none,
  some, true, false, ◌||◌, ◌==◌, text_eq, ltb, length, contains, distinct, Result, arith,
}
use gpt_owu_bridge.Domain.{Message}
use gpt_owu_bridge.Diff.ValidSource.{ids, Named}
use gpt_owu_bridge.Source.Values.{
  Value, Library, Limits, as_object, at, is_null, texts, text_at, object_at,
}
use gpt_owu_bridge.Source.Graph.{or_refuse}
use gpt_owu_bridge.Source.Citations.{degrade_citations}
use gpt_owu_bridge.Source.Scan.{
  Scan, Subject, without_message, ignored, block_visible, append_message, total_length, add_message,
  take_parts, or_report, take_content, scan_message, scan_node, scan_nodes,
}
use gpt_owu_bridge.Source.Passes.{
  Passes, Passes-bind, Passes-ok, Passes-if, Passes-refuse, passes_rules,
}

ids-append_message :
    (ms : List Message) (m : Message) → ids (append_message ms m) ≡ ids ms ++ m.id ∷ []
unfolding append_message
ids-append_message [] new = refl
ids-append_message (m ∷ []) new = refl
ids-append_message (m ∷ n ∷ ns) new = ap (λ xs. m.id ∷ xs) (ids-append_message (n ∷ ns) new)

Named-append_message :
    (ms : List Message) (m : Message) → Named ms → m.id ≢ "" → Named (append_message ms m)
unfolding append_message
Named-append_message [] new h k = (k, tt)
Named-append_message (m ∷ []) new h k = (h.0, (k, tt))
Named-append_message (m ∷ n ∷ ns) new h k = (h.0, Named-append_message (n ∷ ns) new h.1 k)

contains-append :
    (xs : List String) (x y : String) → contains (xs ++ x ∷ []) y ≡ (contains xs y || x == y)
unfolding contains
contains-append [] x y = ground arith
contains-append (z ∷ xs) x y = ground (arith, contains-append xs x y)

distinct-append :
    (xs : List String) (x : String)
    → distinct xs ≡ true
    → contains xs x ≡ false
    → distinct (xs ++ x ∷ []) ≡ true
unfolding distinct contains
distinct-append [] x d c = ground arith
distinct-append (y ∷ ys) x d c = ground (arith, distinct-append ys x, contains-append ys x y)

module _ (l : Library) (limits : Limits) where
  -- The bytes of all texts.
  abbrev pub text_in : List Message → ℕ
  text_in [] = 0
  text_in (m ∷ ms) = total_length l m.parts + text_in ms

  text_in-append_message :
      (ms : List Message) (m : Message)
      → text_in (append_message ms m) ≡ text_in ms + total_length l m.parts
  unfolding append_message
  text_in-append_message [] new = omega arith
  text_in-append_message (m ∷ []) new = omega arith
  text_in-append_message (m ∷ n ∷ ns) new = omega (arith, text_in-append_message (n ∷ ns) new)

  -- The messages have distinct ids that are set, and their texts are within the limit.
  pub record Found (scan : Scan) : Type 0 where
    pub seen : scan.ids ≡ ids scan.messages
    pub named : Named scan.messages
    pub apart : distinct (ids scan.messages) ≡ true
    pub counted : text_in scan.messages ≡ scan.text_bytes
    pub bounded : scan.text_bytes ≤ limits.max_text_bytes

  -- What a part does that finds no message.
  Found-same :
      {scan scan' : Scan}
      → scan'.ids ≡ scan.ids
      → scan'.messages ≡ scan.messages
      → scan'.text_bytes ≡ scan.text_bytes
      → Found scan
      → Found scan'
  Found-same i m t f = record {
    seen = rw i (rw m f.seen);
    named = rw m f.named;
    apart = rw m f.apart;
    counted = rw m (rw t f.counted);
    bounded = rw t f.bounded;
  }

  block_visible-Found :
      (s : Subject) (kind detail : String) (scan : Scan)
      → Found scan
      → Found (block_visible s kind detail scan)
  unfolding block_visible
  block_visible-Found s kind detail scan = Found-same refl refl refl

  ignored-Found :
      (s : Subject) (detail : String) (scan : Scan) → Found scan → Found (ignored s detail scan)
  ignored-Found s detail scan = Found-same refl refl refl

  add_message-Found :
      (s : Subject) (message : Map Value) (channel : String) (given : List String) (scan : Scan)
      → Found scan
      → Passes Found (add_message l limits s message channel given scan)
  unfolding add_message
  add_message-Found s message channel given scan f =
      let parts = (degrade_citations l given (object_at message "metadata")).0 in
      let id = text_at message "id" in
      let bytes = scan.text_bytes + total_length l parts in
      Passes-refuse (ltb limits.max_parts scan.parts || ltb limits.max_text_bytes bytes) _ _
        λ small. Passes-refuse (id == "") _ _ λ set. Passes-refuse (contains scan.ids id) _ _ λ new.
          Passes-ok _ record {
            seen = ap (λ xs. xs ++ id ∷ []) f.seen ∙ sym (ids-append_message scan.messages _);
            named = Named-append_message scan.messages _ f.named (λ e. ground arith);
            apart = rw (ids-append_message scan.messages _) (
                distinct-append (ids scan.messages) id f.apart
                  (subst (λ xs. contains xs id ≡ false) f.seen new));
            counted = omega (arith, text_in-append_message scan.messages _, f.counted);
            bounded = ground (arith, f.bounded);
          }

  Passes-or_report {ℓ} :
      {A : Type ℓ} (a : Option A) (blocked : Scan) (next : A → Result String Scan)
      → Found blocked
      → ((x : A) → Passes Found (next x))
      → Passes Found (or_report a blocked next)
  Passes-or_report none blocked next h k = Passes-ok blocked h
  Passes-or_report (some a) blocked next h k = k a

  take_parts-Found :
      (s : Subject) (message : Map Value) (channel : String) (raw : List Value) (scan : Scan)
      → Found scan
      → Passes Found (take_parts l limits s message channel raw scan)
  unfolding take_parts
  take_parts-Found s message channel raw scan f =
      let counted : Scan = record scan { parts = scan.parts + length raw } in
      let kept : Found counted = Found-same refl refl refl f in
      Passes-refuse (ltb limits.max_parts counted.parts) _ _ λ _.
        Passes-or_report (texts raw) _ _
          (block_visible-Found s "parts" "user-visible text message contains a non-string part"
            counted kept)
          λ parts. add_message-Found s message channel parts counted kept

  take_content-Found :
      (s : Subject) (message : Map Value) (channel : String) (scan : Scan)
      → Found scan
      → Passes Found (take_content l limits s message channel scan)
  unfolding take_content
  take_content-Found s message channel scan f =
      search (passes_rules, Passes-or_report, block_visible-Found, take_parts-Found) depth 12

  scan_message-Found :
      (id : String) (message : Map Value) (scan : Scan)
      → Found scan
      → Passes Found (scan_message l limits id message scan)
  unfolding scan_message
  scan_message-Found id message scan f =
      search
        (passes_rules, Passes-or_report, block_visible-Found, ignored-Found, take_content-Found)
        depth 12

  scan_node-Found :
      (node : String × Map Value) (scan : Scan)
      → Found scan
      → Passes Found (scan_node l limits node scan)
  unfolding scan_node
  scan_node-Found (id, node) scan f =
      Passes-if (is_null (at node "message")) _ _
        (Passes-ok _ (Found-same {scan' = without_message id scan} refl refl refl f))
        (Passes-bind (or_refuse (as_object (at node "message")) "message is not an object") _
          λ message _. scan_message-Found id message scan f)

  pub scan_nodes-Found :
      (nodes : List (String × Map Value)) (scan : Scan)
      → Found scan
      → Passes Found (scan_nodes l limits nodes scan)
  unfolding scan_nodes
  scan_nodes-Found [] scan f = Passes-ok scan f
  scan_nodes-Found (node ∷ rest) scan f =
      Passes-bind (scan_node l limits node scan) _
        λ next h. scan_nodes-Found rest next ((scan_node-Found node scan f).at next h)
