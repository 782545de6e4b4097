-- ===== src/Mentions/Tests.antt =====
-- A draft with one mention.
use comamessenger.Prelude.{All, ◌≡◌, refl, [], ◌∷◌, ◌++◌, arith}
use comamessenger.Mentions.{MentionDraft, mention_source, decode_mentions, encode_mentions}
use comamessenger.Prelude.Units.{Text, slice}
use comamessenger.Mentions.Edits.{common_prefix, update_mention_text, insert_mention}
use comamessenger.Mentions.Chain.{IsWellFormed}
use comamessenger.Mentions.Presence.{Has}
use comamessenger.Mentions.RoundTrip.{decode_mentions-IsWellFormed, encode_mentions-decode_mentions}
use comamessenger.Mentions.Updates.{in_front, update_mention_text-IsWellFormed}
use comamessenger.Mentions.Inserts.{inserted, insert_mention-IsWellFormed}

-- Four hexadecimal digits, and 36.
abbrev digits : Text
digits = 48 ∷ 97 ∷ 70 ∷ 45 ∷ []

abbrev actor_id : Text
actor_id =
    digits
    ++ (digits ++ (digits ++ (digits ++ (digits ++ (digits ++ (digits ++ (digits ++ digits)))))))

abbrev source : Text
source = 104 ∷ 64 ∷ (mention_source (66 ∷ 111 ∷ []) actor_id ++ 33 ∷ [])

abbrev draft : MentionDraft
draft = decode_mentions source

decode_finds : draft.text ≡ 104 ∷ 64 ∷ 64 ∷ 66 ∷ 111 ∷ 33 ∷ []
unfolding decode_mentions
decode_finds = refl

encode_mentions-decode_mentions_example : encode_mentions (decode_mentions source) ≡ source
encode_mentions-decode_mentions_example = encode_mentions-decode_mentions source

abbrev edited : Text
edited = 64 ∷ 64 ∷ 66 ∷ 111 ∷ 63 ∷ 33 ∷ []

update_mention_text-IsWellFormed_example :
    IsWellFormed (update_mention_text draft edited)
    × ((update_mention_text draft edited).text ≡ edited)
    × All
        (λ m. Has m (update_mention_text draft edited).mentions)
        (in_front (common_prefix draft.text edited) draft.mentions)
update_mention_text-IsWellFormed_example =
    update_mention_text-IsWellFormed draft edited (decode_mentions-IsWellFormed source)

abbrev same : Text → Text
same t = t

abbrev small : MentionDraft
small = record {
  text = 64 ∷ 65 ∷ 32 ∷ [];
  mentions = record { actor_id = digits; label = 65 ∷ []; start = 0; end = 2 } ∷ [];
}

small-IsWellFormed : IsWellFormed small
unfolding slice
small-IsWellFormed = (omega arith, omega arith, omega arith, refl, tt)

insert_mention-IsWellFormed_example :
    IsWellFormed (insert_mention same small 2 3 actor_id (66 ∷ 93 ∷ []))
    × Has
        (inserted same 2 actor_id (66 ∷ 93 ∷ []))
        (insert_mention same small 2 3 actor_id (66 ∷ 93 ∷ [])).mentions
insert_mention-IsWellFormed_example =
    insert_mention-IsWellFormed same small 2 3 actor_id (66 ∷ 93 ∷ []) (omega arith) (omega arith)
      small-IsWellFormed
