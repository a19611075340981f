-- ===== src/Jid/RoundTrip.antt =====
-- From a phone number to its id and back.
use f_chat_backend.Prelude.{
  ℕ, Text, text, ◌==◌, ==_refl, starts_with, every, nat_eq, some, [], ◌∷◌, Bool, true, not, ◌≡◌,
  refl, ap, ◌∙◌, arith,
}
use f_chat_backend.Jid.{remove_first, ends_with, phone_from_jid, jid_from_phone, is_individual_jid}

-- A number has no `@` in it.
abbrev pub not_at : ℕ → Bool
not_at c = not (nat_eq c b'@')

remove_first-jid :
    (p : Text)
    → every not_at p ≡ true
    → remove_first (text "@s.whatsapp.net") (jid_from_phone p) ≡ p
unfolding remove_first jid_from_phone every starts_with
remove_first-jid [] h = refl
remove_first-jid (c ∷ p) h = ground (arith, remove_first-jid p)

remove_first-phone : (p : Text) → every not_at p ≡ true → remove_first (text "@c.us") p ≡ p
unfolding remove_first every starts_with
remove_first-phone [] h = refl
remove_first-phone (c ∷ p) h = ground (arith, remove_first-phone p)

ends_with-jid : (p : Text) → ends_with (jid_from_phone p) (text "@s.whatsapp.net") ≡ true
unfolding ends_with jid_from_phone
ends_with-jid [] = rw (==_refl (text "@s.whatsapp.net")) refl
ends_with-jid (c ∷ p) = ground (arith, ends_with-jid p)

is_individual_some :
    (s : Text) → ends_with s (text "@s.whatsapp.net") ≡ true → is_individual_jid (some s) ≡ true
unfolding is_individual_jid ends_with ◌==◌
is_individual_some [] h = h
is_individual_some (c ∷ s) h = h

-- A phone number without `@` is read back from the id that is made of it, and that id is one of an
-- individual contact.
pub phone_from_jid-jid_from_phone :
    (p : Text)
    → every not_at p ≡ true
    → (phone_from_jid (jid_from_phone p) ≡ p) × (is_individual_jid (some (jid_from_phone p)) ≡ true)
unfolding phone_from_jid
phone_from_jid-jid_from_phone p h = (
  ap (λ s. remove_first (text "@c.us") s) (remove_first-jid p h) ∙ remove_first-phone p h,
  is_individual_some (jid_from_phone p) (ends_with-jid p),
)
