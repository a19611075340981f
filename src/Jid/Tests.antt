-- ===== src/Jid/Tests.antt =====
-- A phone number of Peru.
use f_chat_backend.Prelude.{text, every, some, ◌≡◌, refl, true}
use f_chat_backend.Jid.{phone_from_jid, jid_from_phone, is_individual_jid}
use f_chat_backend.Jid.RoundTrip.{phone_from_jid-jid_from_phone}

phone_from_jid-jid_from_phone_example :
    (phone_from_jid (jid_from_phone (text "51987")) ≡ text "51987")
    × (is_individual_jid (some (jid_from_phone (text "51987"))) ≡ true)
unfolding every
phone_from_jid-jid_from_phone_example = phone_from_jid-jid_from_phone (text "51987") refl
