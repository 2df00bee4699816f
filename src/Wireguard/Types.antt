-- ===== src/Wireguard/Types.antt =====
-- The types of the tables that wireguard/lua_wireguard.c answers and takes: which fields a table has,
-- and what stands in them.
pub mod Answers
pub mod Defined
pub mod Safety
use lilush.Common.{ℕ, ◌≡◌, Bool, Bytes, String}
use lilush.Wireguard.Table.{
  Key, Value, nil, boolean, number, string, table, Fields, no_fields, field, lua_getfield,
}

-- A table is a list of one type, or a structure with fields that it must or may have.
mutual
  pub data Shape : Type 0 where
    flag : Shape
    integer : Shape
    text : Shape
    each : Shape → Shape
    struct : Schema → Shape

  pub data Schema : Type 0 where
    no_more : Schema
    required : String → Shape → Schema → Schema
    optional : String → Shape → Schema → Schema

mutual
  pub data HasShape : Shape → Value → Type 0 where
    is_boolean : (b : Bool) → HasShape flag (boolean b)
    is_number : (n : ℕ) → HasShape integer (number n)
    is_string : (s : Bytes) → HasShape text (string s)
    are_each : {s : Shape} {t : Fields} → AllHave s t → HasShape (each s) (table t)
    is_struct : {σ : Schema} {t : Fields} → Follows σ t → HasShape (struct σ) (table t)

  pub data AllHave : Shape → Fields → Type 0 where
    none_there : {s : Shape} → AllHave s no_fields
    one_there :
        {s : Shape} {v : Value} {t : Fields} (k : Key)
        → HasShape s v
        → AllHave s t
        → AllHave s (field k v t)

  -- Fields that the schema does not name may stand there too.
  pub data Follows : Schema → Fields → Type 0 where
    all_there : {t : Fields} → Follows no_more t
    has :
        {k : String} {s : Shape} {σ : Schema} {t : Fields} {v : Value}
        → lua_getfield t k ≡ v
        → HasShape s v
        → Follows σ t
        → Follows (required k s σ) t
    may_have :
        {k : String} {s : Shape} {σ : Schema} {t : Fields} {v : Value}
        → lua_getfield t k ≡ v
        → HasShape s v
        → Follows σ t
        → Follows (optional k s σ) t
    lacks :
        {k : String} {s : Shape} {σ : Schema} {t : Fields}
        → lua_getfield t k ≡ nil
        → Follows σ t
        → Follows (optional k s σ) t

-- What lua_wg_get_device answers.
abbrev pub allowedip_shape : Shape
allowedip_shape =
    struct (required "family" integer (optional "ip" text (required "cidr" integer no_more)))

abbrev pub endpoint_shape : Shape
endpoint_shape = struct (optional "ip" text (optional "port" integer no_more))

abbrev pub peer_shape : Shape
peer_shape = struct (
    required "remove_me" flag (
      required "replace_allowedips" flag (
        optional "public_key" text (
          optional "preshared_key" text (
            required "endpoint" endpoint_shape (
              required "last_handshake_time_sec" integer (
                required "last_handshake_time_nsec" integer (
                  required "rx_bytes" integer (
                    required "tx_bytes" integer (
                      required "persistent_keepalive_interval" integer
                        (required "allowed_ips" (each allowedip_shape) no_more)))))))))))

abbrev pub device_shape : Shape
device_shape = struct (
    required "name" text (
      required "flags" integer (
        optional "public_key" text (
          optional "private_key" text (
            optional "listen_port" integer
              (optional "fwmark" integer (required "peers" (each peer_shape) no_more)))))))

-- What lua_wg_set_device can take: only the keys and the tables have to have their types.
abbrev pub settable_peer : Shape
settable_peer = struct (optional "public_key" text (optional "preshared_key" text no_more))

abbrev pub settable_device : Shape
settable_device = struct (
    optional "public_key" text
      (optional "private_key" text (optional "peers" (each settable_peer) no_more)))

module _ {k : String} {s : Shape} {σ : Schema} {t : Fields} where
  -- What follows a field that may be there.
  pub behind : Follows (optional k s σ) t → Follows σ t
  behind (may_have e h f) = f
  behind (lacks e f) = f

  -- The field, before other fields.
  pub instead : {τ : Schema} → Follows (optional k s σ) t → Follows τ t → Follows (optional k s τ) t
  instead (may_have e h f) g = may_have e h g
  instead (lacks e f) g = lacks e g
