-- ===== src/Web/Chats.antt =====
-- What the web client asks of a chat: apps/web/src/lib/chats.ts, but for the texts that it translates.
use comamessenger.Prelude.{
  ℕ, String, Option, none, some, Bool, true, false, ◌&&◌, ◌||◌, not, List, [], ◌∷◌, ltb, str_eq,
}
use comamessenger.Wire.{Chat, ChatKind, direct, group, channel, Role, member, NotifyLevel}

-- `system` filters, and a folder
pub data ChatFilter : Type 0 where
  all_chats direct_chats grouped_chats channels : ChatFilter
  folder : String → ChatFilter

abbrev pub is_none : NotifyLevel → Bool
is_none NotifyLevel.none = true
is_none _ = false

abbrev pub is_direct : ChatKind → Bool
is_direct direct = true
is_direct _ = false

abbrev pub is_group : ChatKind → Bool
is_group group = true
is_group _ = false

abbrev pub is_channel : ChatKind → Bool
is_channel channel = true
is_channel _ = false

abbrev pub is_member : Role → Bool
is_member member = true
is_member _ = false

-- `Array.prototype.includes` on texts
unfoldable pub includes : String → List String → Bool
includes a [] = false
includes a (x ∷ xs) = str_eq x a || includes a xs

-- `value && ...`: null and the empty text are falsy
abbrev pub is_set : Option String → Bool
is_set none = false
is_set (some text) = not (str_eq text "")

-- `new Date(until).getTime() > now`, by `time`
abbrev pub is_after : (String → ℕ) → Option String → ℕ → Bool
is_after time none now = false
is_after time (some until) now = ltb now (time until)

unfoldable pub is_chat_muted : (String → ℕ) → Chat → ℕ → Bool
is_chat_muted time chat now =
    is_none chat.notify_level || is_set chat.muted_until && is_after time chat.muted_until now

unfoldable pub is_read_only : Chat → Bool
is_read_only chat = is_channel chat.kind && is_member chat.role

unfoldable pub can_manage_chat : Chat → Bool
can_manage_chat chat = not (is_direct chat.kind) && not (is_member chat.role)

-- `matchesFilter`, with the chats of the folder if it is known
unfoldable pub matches_filter : Chat → ChatFilter → Option (List String) → Bool
unfolding includes
matches_filter chat all_chats ids = true
matches_filter chat direct_chats ids = is_direct chat.kind
matches_filter chat grouped_chats ids = is_group chat.kind
matches_filter chat channels ids = is_channel chat.kind
matches_filter chat (folder name) none = false
matches_filter chat (folder name) (some ids) = includes chat.id ids
