-- ===== src/Version/Order.antt =====
-- The derived order of versions is a strict total order.
use douglas.Base.{◌≡◌, true, false, arith}
use douglas.Version.{Version, lt_version, same_version}

pub lt_version_irrefl : (a : Version) → lt_version a a ≡ false
lt_version_irrefl a = ground arith

pub lt_version_trans :
    (a b c : Version) → lt_version a b ≡ true → lt_version b c ≡ true → lt_version a c ≡ true
lt_version_trans a b c h k = ground arith

pub lt_version_asymm : (a b : Version) → lt_version a b ≡ true → lt_version b a ≡ false
lt_version_asymm a b h = ground arith

-- Versions neither of which comes first are equal.
pub lt_version_connex : (a b : Version) → lt_version a b ≡ false → lt_version b a ≡ false → a ≡ b
lt_version_connex a b h k = ground arith

pub same_version_sound : (a b : Version) → same_version a b ≡ true → a ≡ b
same_version_sound a b h = ground arith

pub same_version_refl : (a : Version) → same_version a a ≡ true
same_version_refl a = ground arith

-- `a` is not newer than `b`, in two steps.
pub not_newer_trans :
    (a b c : Version) → lt_version b a ≡ false → lt_version c b ≡ false → lt_version c a ≡ false
not_newer_trans a b c h k = ground arith
