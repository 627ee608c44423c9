-- ===== src/Source/Shared.antt =====
-- internal/source/chatgpt/parser.go: where the snapshot of a share comes from.
use gpt_owu_bridge.Base.{
  ap, ◌∙◌, text_eq, String, ◌≡◌, refl, subst, List, some, ok, arith, >>=-elim,
}
use gpt_owu_bridge.Base.Int.{pos}
use gpt_owu_bridge.Domain.{Time, SourceSnapshot}
use gpt_owu_bridge.Domain.Hash.{Codec, source_hash}
use gpt_owu_bridge.Source.Values.{
  Value, null, boolean, text, number, array, object, Members, entries, as_object, Library, Limits,
}
use gpt_owu_bridge.Source.Graph.{or_refuse}
use gpt_owu_bridge.Source.Decode.{Numerals, decode_root}
use gpt_owu_bridge.Source.Decoded.{Means, decode_root-Means, or_refuse-eq}
use gpt_owu_bridge.Source.Snapshot.{build_snapshot}
use gpt_owu_bridge.Source.Share.{Candidate, single, fetched_or_now, candidates_of, parse_tables}
use gpt_owu_bridge.Source.Chosen.{OneOf, candidates_of-one, single-eq}

as_object-eq :
    {P : Type 0} (v : Value) (fields : _)
    → as_object v ≡ some fields
    → ((members : Members) → v ≡ object members → entries members ≡ fields → P)
    → P
as_object-eq (object members) fields h k = k members refl (ground (arith, h))
as_object-eq null fields h k = absurd (cc)
as_object-eq (boolean b) fields h k = absurd (cc)
as_object-eq (number n) fields h k = absurd (cc)
as_object-eq (text s) fields h k = absurd (cc)
as_object-eq (array es) fields h k = absurd (cc)

module _ {Bytes : Type 0} (c : Codec Bytes) (l : Library) (m : Numerals) (limits : Limits) where
  -- A snapshot of the conversation that the one entry stands for which, in all the tables, is an
  -- object with the fields of a conversation.
  pub record FromTable (tables : List (List Value)) (t : Time) (s : SourceSnapshot) : Type 0 where
    pub chosen : Candidate
    pub only : OneOf m tables chosen
    pub conversation : Members
    pub meant : Means m chosen.table (pos chosen.index) (object conversation)
    pub built : SourceSnapshot
    pub from_it : build_snapshot l limits (entries conversation) t ≡ ok built
    pub hash : String
    pub hashed : source_hash c built ≡ some hash
    pub result : s ≡ record built { business_hash = hash }

  -- Where the parser makes a snapshot of reference tables, exactly one entry of all of them is an
  -- object with keys that refer to the texts "mapping", "linear_conversation" and "current_node".
  -- What this entry stands for in its table is the conversation that `buildSnapshot` builds the
  -- snapshot of, at the time given or, where none is, at that of the clock; the hash of the snapshot
  -- is set to that of its contents.
  pub parse_tables-FromTable :
      (tables : List (List Value)) (fetched now : Time) (s : SourceSnapshot)
      → parse_tables c l m limits tables fetched now ≡ ok s
      → FromTable tables (fetched_or_now fetched now) s
  unfolding parse_tables
  parse_tables-FromTable tables fetched now s h = >>=-elim (candidates_of m tables) _ h λ cs h₁ h₂.
      >>=-elim (or_refuse (single cs) "ambiguous or missing conversation structure") _ h₂
        λ chosen h₃ h₄.
          >>=-elim (decode_root m chosen.table limits.max_depth (pos chosen.index)) _ h₄ λ v h₅ h₆.
            >>=-elim (or_refuse (as_object v) "conversation root is not an object") _ h₆
              λ fields h₇ h₈.
                >>=-elim (build_snapshot l limits fields (fetched_or_now fetched now)) _ h₈
                  λ built h₉ k₁.
                    >>=-elim (or_refuse (source_hash c built) "cannot encode the snapshot") _ k₁
                      λ hash k₂ k₃.
                        as_object-eq v fields (or_refuse-eq _ _ fields h₇) λ conversation k₄ k₅.
                          record {
                            chosen = chosen;
                            only =
                                candidates_of-one m tables chosen
                                  (h₁ ∙ ap ok (single-eq cs chosen (or_refuse-eq _ _ chosen h₃)));
                            conversation = conversation;
                            meant = subst (Means m chosen.table (pos chosen.index)) k₄ (
                                decode_root-Means m chosen.table limits.max_depth (pos chosen.index)
                                  v h₅);
                            built = built;
                            from_it = rw k₅ h₉;
                            hash = hash;
                            hashed = or_refuse-eq _ _ hash k₂;
                            result = ground (arith, k₃);
                          }
