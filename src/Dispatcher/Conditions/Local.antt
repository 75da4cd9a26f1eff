-- ===== src/Dispatcher/Conditions/Local.antt =====
-- IsLocalHost: which hosts its regular expression lets through.
use cffi_proxy.Base.{ℕ, ◌≡◌, true, Text, [], ◌∷◌, ◌++◌, codes, arith, has_prefix}
use cffi_proxy.Http.{Request}
use cffi_proxy.Dispatcher.Conditions.{is_digit, starts_with_digit, local_host_ipv4, is_local_host}

local_host_ipv4-append :
    (before s : Text) → local_host_ipv4 s ≡ true → local_host_ipv4 (before ++ s) ≡ true
unfolding local_host_ipv4
local_host_ipv4-append [] s h = h
local_host_ipv4-append (c ∷ before) s h = ground (arith, local_host_ipv4-append before s h)

local_address :
    (d : ℕ) (rest : Text)
    → is_digit d ≡ true
    → local_host_ipv4 (codes "127.0.0." ++ d ∷ rest) ≡ true
unfolding local_host_ipv4 starts_with_digit codes has_prefix
local_address d rest h = ground arith

-- The regular expression is not anchored: every host in which "127.0.0." and a digit stand anywhere
-- counts as the local host, so also names that only contain them.
pub is_local_host-anywhere :
    (req : Request) (before rest : Text) (d : ℕ)
    → is_digit d ≡ true
    → req.url.host ≡ before ++ (codes "127.0.0." ++ d ∷ rest)
    → is_local_host req ≡ true
unfolding is_local_host
is_local_host-anywhere req before rest d h e =
    let found : local_host_ipv4 req.url.host ≡ true =
      rw e
        (local_host_ipv4-append before (codes "127.0.0." ++ d ∷ rest) (local_address d rest h)) in
    ground (arith, found)
