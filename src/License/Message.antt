-- ===== src/License/Message.antt =====
-- The texts that the licence functions of supabase/functions answer with.
use beidar_pos.Prelude.{String}

abbrev pub key_and_user : String
key_and_user =
    "\u{645}\u{641}\u{62a}\u{627}\u{62d} \u{627}\u{644}\u{62a}\u{631}\u{62e}\u{64a}\u{635} \u{648}\u{645}\u{639}\u{631}\u{641} \u{627}\u{644}\u{645}\u{633}\u{62a}\u{62e}\u{62f}\u{645} \u{645}\u{637}\u{644}\u{648}\u{628}\u{627}\u{646}"

abbrev pub no_such_key : String
no_such_key =
    "\u{645}\u{641}\u{62a}\u{627}\u{62d} \u{627}\u{644}\u{62a}\u{631}\u{62e}\u{64a}\u{635} \u{63a}\u{64a}\u{631} \u{645}\u{648}\u{62c}\u{648}\u{62f}"

abbrev pub not_active : String
not_active =
    "\u{627}\u{644}\u{62a}\u{631}\u{62e}\u{64a}\u{635} \u{63a}\u{64a}\u{631} \u{646}\u{634}\u{637} \u{623}\u{648} \u{62a}\u{645} \u{62d}\u{638}\u{631}\u{647}"

abbrev pub bound_elsewhere : String
bound_elsewhere =
    "\u{647}\u{630}\u{627} \u{627}\u{644}\u{62a}\u{631}\u{62e}\u{64a}\u{635} \u{645}\u{631}\u{62a}\u{628}\u{637} \u{628}\u{62d}\u{633}\u{627}\u{628} \u{622}\u{62e}\u{631} \u{628}\u{627}\u{644}\u{641}\u{639}\u{644}"

abbrev pub update_failed : String
update_failed =
    "\u{641}\u{634}\u{644} \u{62a}\u{641}\u{639}\u{64a}\u{644} \u{627}\u{644}\u{62a}\u{631}\u{62e}\u{64a}\u{635} \u{641}\u{64a} \u{642}\u{627}\u{639}\u{62f}\u{629} \u{627}\u{644}\u{628}\u{64a}\u{627}\u{646}\u{627}\u{62a}"

abbrev pub activated : String
activated =
    "\u{62a}\u{645} \u{62a}\u{641}\u{639}\u{64a}\u{644} \u{627}\u{644}\u{62a}\u{631}\u{62e}\u{64a}\u{635} \u{628}\u{646}\u{62c}\u{627}\u{62d}"

abbrev pub user_missing : String
user_missing =
    "\u{645}\u{639}\u{631}\u{641} \u{627}\u{644}\u{645}\u{633}\u{62a}\u{62e}\u{62f}\u{645} \u{645}\u{637}\u{644}\u{648}\u{628}"

abbrev pub no_licence : String
no_licence =
    "\u{644}\u{627} \u{64a}\u{648}\u{62c}\u{62f} \u{62a}\u{631}\u{62e}\u{64a}\u{635} \u{646}\u{634}\u{637} \u{645}\u{631}\u{62a}\u{628}\u{637} \u{628}\u{62d}\u{633}\u{627}\u{628}\u{643}"

abbrev pub expired : String
expired =
    "\u{627}\u{646}\u{62a}\u{647}\u{62a} \u{635}\u{644}\u{627}\u{62d}\u{64a}\u{629} \u{627}\u{644}\u{62a}\u{631}\u{62e}\u{64a}\u{635} \u{627}\u{644}\u{62e}\u{627}\u{635} \u{628}\u{643}"

abbrev pub valid : String
valid =
    "\u{627}\u{644}\u{62a}\u{631}\u{62e}\u{64a}\u{635} \u{646}\u{634}\u{637} \u{648}\u{635}\u{627}\u{644}\u{62d}"
