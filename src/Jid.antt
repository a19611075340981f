-- ===== src/Jid.antt =====
-- src/common/utils/whatsapp-jid.ts: the ids of WhatsApp contacts.
pub mod RoundTrip
mod Tests
use f_chat_backend.Prelude.{
  ℕ, Text, text, ◌==◌, starts_with, drop, length, Option, none, some, List, [], ◌∷◌, ◌++◌, Bool,
  true, false, ◌||◌, if◌then◌else◌,
}

-- s.replace(pattern, ''): the first occurrence goes.
unfoldable pub remove_first : Text → Text → Text
unfolding starts_with
remove_first pattern [] = []
remove_first pattern (c ∷ s) =
    let rest = remove_first pattern s in
    if starts_with (c ∷ s) pattern then drop (length pattern) (c ∷ s) else c ∷ rest

-- s.endsWith(suffix)
unfoldable pub ends_with : Text → Text → Bool
ends_with [] suffix = [] == suffix
ends_with (c ∷ s) suffix = (c ∷ s) == suffix || ends_with s suffix

unfoldable pub phone_from_jid : Text → Text
unfolding remove_first
phone_from_jid jid = remove_first (text "@c.us") (remove_first (text "@s.whatsapp.net") jid)

unfoldable pub jid_from_phone : Text → Text
jid_from_phone phone = phone ++ text "@s.whatsapp.net"

-- `null` and the empty text are no ids.
pub is_individual_jid : Option Text → Bool
unfolding ends_with
is_individual_jid none = false
is_individual_jid (some []) = false
is_individual_jid (some (c ∷ jid)) = ends_with (c ∷ jid) (text "@s.whatsapp.net")

pub is_group_jid : Option Text → Bool
unfolding ends_with
is_group_jid none = false
is_group_jid (some []) = false
is_group_jid (some (c ∷ jid)) = ends_with (c ∷ jid) (text "@g.us")
