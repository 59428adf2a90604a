-- ===== src/App/Target/Ranges.antt =====
-- The addresses that are blocked, as ranges.
use relaybox.Prelude.{
  ℕ, ◌+◌, ◌-◌, ◌*◌, ◌/◌, ◌^◌, ◌<◌, ◌≡◌, refl, Text, Bool, true, false, not, ◌&&◌, ◌||◌, List, [],
  ◌∷◌, leb, nat_eq, arith,
}
use relaybox.App.Target.{v4, v6, blocked_ip, unmap}

abbrev address : ℕ → ℕ → ℕ → ℕ → ℕ
address a b c d = ((a * 256 + b) * 256 + c) * 256 + d

-- The ranges of IPv4 addresses that are not forwarded to, each by its first and its last address.
abbrev pub blocked_ranges : List (ℕ × ℕ)
blocked_ranges =
    (address 0 0 0 0, address 0 0 0 0)
    ∷ (address 10 0 0 0, address 10 255 255 255)
    ∷ (address 100 64 0 0, address 100 127 255 255)
    ∷ (address 127 0 0 0, address 127 255 255 255)
    ∷ (address 169 254 0 0, address 169 254 255 255)
    ∷ (address 172 16 0 0, address 172 31 255 255)
    ∷ (address 192 0 0 0, address 192 0 0 255)
    ∷ (address 192 0 2 0, address 192 0 2 255)
    ∷ (address 192 168 0 0, address 192 168 255 255)
    ∷ (address 198 18 0 0, address 198 19 255 255)
    ∷ (address 198 51 100 0, address 198 51 100 255)
    ∷ (address 203 0 113 0, address 203 0 113 255)
    ∷ (address 224 0 0 0, address 239 255 255 255)
    ∷ (address 255 255 255 255, address 255 255 255 255)
    ∷ []

abbrev pub in_ranges : ℕ → List (ℕ × ℕ) → Bool
in_ranges n [] = false
in_ranges n ((first, last) ∷ l) = (leb first n && leb n last) || in_ranges n l

module _ (n : ℕ) where
  abbrev between : ℕ → ℕ → Bool
  between first last = leb first n && leb n last

  first_ten : nat_eq (n / 2 ^ 24) 10 ≡ between 167772160 184549375
  first_ten = ground arith

  loopback : nat_eq (n / 2 ^ 24) 127 ≡ between 2130706432 2147483647
  loopback = ground arith

  multicast : nat_eq (n / 2 ^ 28) 14 ≡ between 3758096384 4026531839
  multicast = ground arith

  link_local : nat_eq (n / 2 ^ 16) 43518 ≡ between 2851995648 2852061183
  link_local = ground arith

  private_12 : nat_eq (n / 2 ^ 20) 2753 ≡ between 2886729728 2887778303
  private_12 = ground arith

  private_16 : nat_eq (n / 2 ^ 16) 49320 ≡ between 3232235520 3232301055
  private_16 = ground arith

  shared : nat_eq (n / 2 ^ 22) 401 ≡ between 1681915904 1686110207
  shared = ground arith

  protocol : nat_eq (n / 2 ^ 8) 12582912 ≡ between 3221225472 3221225727
  protocol = ground arith

  example_1 : nat_eq (n / 2 ^ 8) 12582914 ≡ between 3221225984 3221226239
  example_1 = ground arith

  benchmark : nat_eq (n / 2 ^ 17) 25353 ≡ between 3323068416 3323199487
  benchmark = ground arith

  example_2 : nat_eq (n / 2 ^ 8) 12989284 ≡ between 3325256704 3325256959
  example_2 = ground arith

  example_3 : nat_eq (n / 2 ^ 8) 13303921 ≡ between 3405803776 3405804031
  example_3 = ground arith

  unspecified : nat_eq n 0 ≡ between 0 0
  unspecified = ground arith

  last_address : nat_eq n 4294967295 ≡ between 4294967295 4294967295
  last_address = ground arith

  local_multicast : nat_eq (n / 2 ^ 8) 14680064 ≡ true → between 3758096384 4026531839 ≡ true
  local_multicast h = ground arith

-- The tests of `blockedIP` and those of the ranges, in their two orders.
same_tests :
    (u b l m ll p10 p12 p16 lm s pr e1 be e2 e3 : Bool)
    → (lm ≡ true → m ≡ true)
    → (not (true && not (u || b || l || m || ll))
        || l
        || (p10 || p12 || p16)
        || ll
        || lm
        || m
        || u
        || false
        || (s || (pr || (e1 || (be || (e2 || (e3 || false)))))))
      ≡ (u
          || (p10
              || (s
                  || (l
                      || (ll
                          || (p12
                              || (pr
                                  || (e1
                                      || (p16
                                          || (be || (e2 || (e3 || (m || (b || false))))))))))))))
same_tests u b l m ll p10 p12 p16 lm s pr e1 be e2 e3 h = ground arith

module _ (n : ℕ) where
  -- An IPv4 address is blocked exactly where it lies in one of the listed ranges.
  pub blocked_ip-ranges : blocked_ip (v4 n) ≡ in_ranges n blocked_ranges
  unfolding blocked_ip unmap
  blocked_ip-ranges =
      rw
        (
          unspecified n,
          first_ten n,
          loopback n,
          multicast n,
          link_local n,
          private_12 n,
          private_16 n,
          shared n,
          protocol n,
          example_1 n,
          benchmark n,
          example_2 n,
          example_3 n,
          last_address n,
        )
        (same_tests (between n 0 0) (between n 4294967295 4294967295)
          (between n 2130706432 2147483647) (between n 3758096384 4026531839)
          (between n 2851995648 2852061183) (between n 167772160 184549375)
          (between n 2886729728 2887778303) (between n 3232235520 3232301055)
          (nat_eq (n / 256) 14680064) (between n 1681915904 1686110207)
          (between n 3221225472 3221225727) (between n 3221225984 3221226239)
          (between n 3323068416 3323199487) (between n 3325256704 3325256959)
          (between n 3405803776 3405804031) (local_multicast n))

  -- An IPv4-mapped IPv6 address, in whatever zone, is blocked exactly where the IPv4 address is.
  pub blocked_ip-mapped :
      (zone : Text) → n < 2 ^ 32 → blocked_ip (v6 (65535 * 2 ^ 32 + n) zone) ≡ blocked_ip (v4 n)
  unfolding blocked_ip unmap
  blocked_ip-mapped zone h =
      let mapped : nat_eq ((65535 * 2 ^ 32 + n) / 2 ^ 32) 65535 ≡ true = ground arith in
      let same : 65535 * 2 ^ 32 + n - 65535 * 2 ^ 32 ≡ n = omega arith in rw (mapped, same) refl
