-- ===== src/Logger/Tests.antt =====
-- The properties of logger.ts at small data.
use beidar_pos.Prelude.{◌<◌, ◌≡◌, refl, true, none, arith, length}
use beidar_pos.Prelude.Int.{pos}
use beidar_pos.Logger.{
  Value, text, number, object, array, opaque, nil, cons, end, field, codes, sanitize, redacted,
  Entry, info, is_sensitive, is_phone_key,
}
use beidar_pos.Logger.Mask.{Text, trim, mask_phone, replace_phones}
use beidar_pos.Logger.Redact.{is_clean, sanitize_redacts}

abbrev phone : Text
phone = codes " 07701234567 "

abbrev staff : Value
staff = object (
    field (codes "PIN") (number (pos 1234)) (
      field (codes "mobile") (text phone)
        (field (codes "tags") (array (cons (opaque (codes "1")) nil)) end)))

abbrev entry : Entry
entry = record {
  level = info;
  message = codes "saved";
  timestamp = 5;
  data_of = redacted;
  context = none;
}

phone_is_masked : mask_phone phone ≡ codes "0770****567"
unfolding mask_phone trim
phone_is_masked = refl

phones_are_masked : replace_phones (codes "call +9647701234567!") ≡ codes "call +9647******567!"
unfolding replace_phones
phones_are_masked = refl

staff_is_sanitized :
    sanitize 0 staff
    ≡ object (
        field (codes "PIN") redacted (
          field
            (codes "mobile")
            (text (codes "0770****567"))
            (field (codes "tags") (array (cons (text (codes "1")) nil)) end)))
unfolding sanitize mask_phone is_sensitive is_phone_key
staff_is_sanitized = refl

phone_is_long : 0 < length (trim phone)
unfolding trim
phone_is_long = omega arith

sanitize_redacts_example : is_clean (sanitize 0 staff) ≡ true
sanitize_redacts_example = sanitize_redacts staff
