-- ===== src/Control/Identity.antt =====
-- node_identity.c of the solar controller and the light switch, which differ in the record's magic
-- number. What the NVS driver gives, and the outcome of a write, are inputs.
use bramka_setup.Base.{
  ℕ, Bool, true, false, ◌&&◌, ◌||◌, Option, none, some, if◌then◌else◌, leb, ◌==◌,
}
use bramka_setup.Shared.NodeProtocol.{addr_unprovisioned, addr_pool_first, addr_pool_last}

pub record IdentityRec : Type 0 where
  pub magic : ℕ
  pub addr : ℕ

-- the gNodeAddress that a stored record gives
abbrev pub valid_rec : ℕ → IdentityRec → Bool
valid_rec magic rec =
    rec.magic == magic
    && (rec.addr == addr_unprovisioned
        || leb addr_pool_first rec.addr && leb rec.addr addr_pool_last)

-- `identity_init` on what NVS_read gives; none when the driver does not open or the read fails
unfoldable pub identity_init : ℕ → Option IdentityRec → ℕ
identity_init magic none = addr_unprovisioned
identity_init magic (some rec) = if valid_rec magic rec then rec.addr else addr_unprovisioned

-- sNvs is NULL, the write succeeds, or it fails and leaves the flash as it may
pub data Write : Type 0 where
  no_driver succeeded : Write
  failed : Option IdentityRec → Write

-- `identity_persist`: its value, and what the flash holds afterwards
unfoldable pub identity_persist : ℕ → Write → ℕ → Option IdentityRec → Bool × Option IdentityRec
identity_persist magic no_driver a flash = (false, flash)
identity_persist magic succeeded a flash = (true, some (record { magic = magic; addr = a }))
identity_persist magic (failed left) a flash = (false, left)
