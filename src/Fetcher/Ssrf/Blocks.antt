-- ===== src/Fetcher/Ssrf/Blocks.antt =====
-- The guard against the blocks of addresses that it means to refuse.
use rabbot_seo.Base.{
  ℕ, ◌+◌, ◌/◌, ◌≡◌, Bool, true, false, ◌||◌, ◌&&◌, List, [], ◌∷◌, leb, ltb, ◌==◌, arith,
}
use rabbot_seo.Fetcher.Ssrf.{v4, bytes4, byte1, byte2, byte3, metadata_ipv4, ip_disallowed}

-- A block: its first address, and how many there are.
abbrev pub in_blocks : List (ℕ × ℕ) → ℕ → Bool
in_blocks [] n = false
in_blocks ((first, size) ∷ bs) n = (leb first n && ltb n (first + size)) || in_blocks bs n

-- 0.0.0.0/8, 10.0.0.0/8, 100.64.0.0/10, 127.0.0.0/8, 169.254.0.0/16, 172.16.0.0/12, 192.0.0.0/24,
-- 192.168.0.0/16, 198.18.0.0/15 and 224.0.0.0/4.
abbrev pub refused_blocks : List (ℕ × ℕ)
refused_blocks =
    (bytes4 0 0 0 0, 16777216)
    ∷ (bytes4 10 0 0 0, 16777216)
    ∷ (bytes4 100 64 0 0, 4194304)
    ∷ (bytes4 127 0 0 0, 16777216)
    ∷ (bytes4 169 254 0 0, 65536)
    ∷ (bytes4 172 16 0 0, 1048576)
    ∷ (bytes4 192 0 0 0, 256)
    ∷ (bytes4 192 168 0 0, 65536)
    ∷ (bytes4 198 18 0 0, 131072)
    ∷ (bytes4 224 0 0 0, 268435456)
    ∷ []

abbrev in_block : ℕ → ℕ → ℕ → Bool
in_block first size n = leb first n && ltb n (first + size)

loopback_block : (n : ℕ) → (byte1 n == 127) ≡ in_block (bytes4 127 0 0 0) 16777216 n
loopback_block n = ground arith

private_a_block : (n : ℕ) → (byte1 n == 10) ≡ in_block (bytes4 10 0 0 0) 16777216 n
private_a_block n = ground arith

private_b_block :
    (n : ℕ) → ((byte1 n == 172) && (byte2 n / 16 == 1)) ≡ in_block (bytes4 172 16 0 0) 1048576 n
private_b_block n = ground arith

private_c_block :
    (n : ℕ) → ((byte1 n == 192) && (byte2 n == 168)) ≡ in_block (bytes4 192 168 0 0) 65536 n
private_c_block n = ground arith

link_local_block :
    (n : ℕ) → ((byte1 n == 169) && (byte2 n == 254)) ≡ in_block (bytes4 169 254 0 0) 65536 n
link_local_block n = ground arith

multicast_block : (n : ℕ) → (byte1 n / 16 == 14) ≡ in_block (bytes4 224 0 0 0) 268435456 n
multicast_block n = ground arith

this_network_block : (n : ℕ) → (byte1 n == 0) ≡ in_block (bytes4 0 0 0 0) 16777216 n
this_network_block n = ground arith

shared_block :
    (n : ℕ) → ((byte1 n == 100) && (byte2 n / 64 == 1)) ≡ in_block (bytes4 100 64 0 0) 4194304 n
shared_block n = ground arith

protocol_block :
    (n : ℕ)
    → ((byte1 n == 192) && (byte2 n == 0) && (byte3 n == 0)) ≡ in_block (bytes4 192 0 0 0) 256 n
protocol_block n = ground arith

benchmark_block :
    (n : ℕ) → ((byte1 n == 198) && (byte2 n / 2 == 9)) ≡ in_block (bytes4 198 18 0 0) 131072 n
benchmark_block n = ground arith

-- Three tests that lie within others.
metadata_within :
    (n : ℕ) → (n == metadata_ipv4) ≡ true → in_block (bytes4 169 254 0 0) 65536 n ≡ true
metadata_within n h = ground arith

unspecified_within : (n : ℕ) → (n == 0) ≡ true → in_block (bytes4 0 0 0 0) 16777216 n ≡ true
unspecified_within n h = ground arith

local_multicast_within :
    (n : ℕ)
    → ((byte1 n == 224) && (byte2 n == 0) && (byte3 n == 0)) ≡ true
    → in_block (bytes4 224 0 0 0) 268435456 n ≡ true
local_multicast_within n h = ground arith

-- The tests in the order of the code, and the blocks in the order of their addresses.
in_order :
    (meta loop pa pb pc unspec ll llm mc this shared proto bench : Bool)
    → (meta ≡ true → ll ≡ true)
    → (unspec ≡ true → this ≡ true)
    → (llm ≡ true → mc ≡ true)
    → (meta
        || loop
        || (pa || pb || pc)
        || unspec
        || ll
        || llm
        || mc
        || (this || shared || proto || bench))
      ≡ (this
          || (pa
              || (shared || (loop || (ll || (pb || (proto || (pc || (bench || (mc || false))))))))))
in_order meta loop pa pb pc unspec ll llm mc this shared proto bench f g h = ground arith

-- An IPv4 address is refused exactly if it lies in one of ten blocks.
pub v4_blocks : (n : ℕ) → ip_disallowed (v4 n) ≡ in_blocks refused_blocks n
unfolding ip_disallowed
v4_blocks n =
    rw
      (
        loopback_block n,
        private_a_block n,
        private_b_block n,
        private_c_block n,
        link_local_block n,
        multicast_block n,
        this_network_block n,
        shared_block n,
        protocol_block n,
        benchmark_block n,
      )
      (in_order (n == metadata_ipv4) (in_block (bytes4 127 0 0 0) 16777216 n)
        (in_block (bytes4 10 0 0 0) 16777216 n) (in_block (bytes4 172 16 0 0) 1048576 n)
        (in_block (bytes4 192 168 0 0) 65536 n) (n == 0) (in_block (bytes4 169 254 0 0) 65536 n)
        ((byte1 n == 224) && (byte2 n == 0) && (byte3 n == 0))
        (in_block (bytes4 224 0 0 0) 268435456 n) (in_block (bytes4 0 0 0 0) 16777216 n)
        (in_block (bytes4 100 64 0 0) 4194304 n) (in_block (bytes4 192 0 0 0) 256 n)
        (in_block (bytes4 198 18 0 0) 131072 n) (metadata_within n) (unspecified_within n)
        (local_multicast_within n))
