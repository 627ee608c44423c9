-- ===== src/Source/Parsed.antt =====
-- internal/source/chatgpt/parser.go: the snapshots that the parser builds.
use gpt_owu_bridge.Base.{
  ◌≤◌, ◌≡◌, refl, Map, nonempty, not, true, ok, arith, >>=-elim, refused-elim, distinct-Nodup,
  distinct, text_eq, ltb, length, distinct,
}
use gpt_owu_bridge.Domain.{Time, SourceSnapshot}
use gpt_owu_bridge.Diff.Validate.{validate_source}
use gpt_owu_bridge.Diff.ValidSource.{ids, validate_source_iff}
use gpt_owu_bridge.Source.Values.{Value, Library, Limits, as_object, at}
use gpt_owu_bridge.Source.Graph.{or_refuse}
use gpt_owu_bridge.Source.Scan.{Scan, scan_nodes}
use gpt_owu_bridge.Source.Snapshot.{
  first_scan, conversation_nodes, optional_string, assemble, build_snapshot,
}
use gpt_owu_bridge.Source.Found.{text_in, Found, scan_nodes-Found}

module _ (l : Library) (limits : Limits) where
  first_scan-Found : (mapping : Map Value) → Found l limits (first_scan mapping)
  unfolding distinct
  first_scan-Found mapping = record {
    seen = refl;
    named = tt;
    apart = refl;
    counted = refl;
    bounded = ground arith;
  }

  assemble-messages :
      (conversation : Map Value) (t : Time) (scan : Scan) (s : SourceSnapshot)
      → assemble l limits conversation t scan ≡ ok s
      → (s.messages ≡ scan.messages) × (nonempty scan.messages ≡ true)
  unfolding assemble
  assemble-messages conversation t scan s h =
      refused-elim (not (nonempty scan.messages)) _ _ h λ some h₁.
        >>=-elim (optional_string conversation "title" "title is not a string") _ h₁ λ title _ h₂.
          >>=-elim
            (optional_string conversation "conversation_id" "conversation_id is not a string") _ h₂
            λ share _ h₃.
              >>=-elim
                (optional_string conversation "backing_conversation_id"
                  "backing_conversation_id is not a string")
                _ h₃ λ backing _ h₄. (ground (arith, h₄), ground arith)

  -- What the messages of a snapshot come from.
  record Source (s : SourceSnapshot) : Type 0 where
    scan : Scan
    found : Found l limits scan
    taken : s.messages ≡ scan.messages
    some_message : nonempty scan.messages ≡ true

  build_snapshot-Source :
      (conversation : Map Value) (t : Time) (s : SourceSnapshot)
      → build_snapshot l limits conversation t ≡ ok s
      → Source s
  unfolding build_snapshot
  build_snapshot-Source conversation t s h =
      >>=-elim (or_refuse (as_object (at conversation "mapping")) "mapping is missing or empty") _ h
        λ mapping _ h₁. refused-elim (not (nonempty mapping)) _ _ h₁ λ _ h₂.
          refused-elim (ltb limits.max_nodes (length mapping)) _ _ h₂ λ _ h₃.
            >>=-elim (conversation_nodes l limits conversation mapping) _ h₃ λ nodes _ h₄.
              >>=-elim (scan_nodes l limits nodes (first_scan mapping)) _ h₄ λ scan k h₅.
                let (same, full) = assemble-messages conversation t scan s h₅ in
                record {
                  scan = scan;
                  found =
                      (scan_nodes-Found l limits nodes (first_scan mapping)
                          (first_scan-Found mapping)).at
                        scan k;
                  taken = same;
                  some_message = full;
                }

  -- A snapshot that the parser builds is one that the preview accepts, and it has a message.
  pub build_snapshot-accepted :
      (conversation : Map Value) (t : Time) (s : SourceSnapshot)
      → build_snapshot l limits conversation t ≡ ok s
      → (validate_source s ≡ ok tt) × (nonempty s.messages ≡ true)
  build_snapshot-accepted conversation t s h =
      let found = build_snapshot-Source conversation t s h in
      (
        (validate_source_iff s).1 (
          rw found.taken found.found.named,
          (distinct-Nodup (ids s.messages)).0 (rw found.taken found.found.apart),
        ),
        rw found.taken found.some_message,
      )

  -- The texts of a snapshot that the parser builds have no more bytes than the limit.
  pub build_snapshot-bounded :
      (conversation : Map Value) (t : Time) (s : SourceSnapshot)
      → build_snapshot l limits conversation t ≡ ok s
      → text_in l limits s.messages ≤ limits.max_text_bytes
  build_snapshot-bounded conversation t s h =
      let found = build_snapshot-Source conversation t s h in
      rw found.taken (rw found.found.counted found.found.bounded)
