-- ===== src/Server/Networks.antt =====
-- The settings of each network fit what the producers require.
use block_dn.Common.{◌%◌, ◌<◌, ◌≤◌, ◌≡◌, ◌≢◌, ◌⊎◌, inl, inr, refl, true, Bool-cases, arith}
use block_dn.Common.Effect.{M}
use block_dn.CustomFilters.Building.{update_custom_files}
use block_dn.External.{Network}
use block_dn.Server.{
  MainCommand, Sizes, resolve_network, mainnet_depth, default_sizes, regtest_sizes,
}

-- What a network makes of the command, with its sizes.
pub record Fits (cc : MainCommand) (resolved : MainCommand × Network × Sizes) : Type 0 where
  pub sizes : (0 < resolved.2.filters_per_file) × (0 < resolved.2.headers_per_file)
  pub multiple : resolved.2.headers_per_file % resolved.2.filters_per_file ≡ 0
  pub deep : cc.re_org_safe_depth ≤ resolved.0.re_org_safe_depth
  pub deep_test :
      (cc.testnet ≡ true) ⊎ (cc.testnet4 ≡ true) → resolved.0.re_org_safe_depth ≢ mainnet_depth

known_sizes :
    (cc : MainCommand)
    → ((resolve_network cc).2 ≡ default_sizes) ⊎ ((resolve_network cc).2 ≡ regtest_sizes)
unfolding resolve_network
known_sizes cc = elim (Bool-cases cc.testnet) [
  | inl q ↦ inl (simp q)
  | inr q ↦ elim (Bool-cases cc.testnet4) [
    | inl q2 ↦ inl (simp (q, q2))
    | inr q2 ↦ elim (Bool-cases cc.signet) [
      | inl q3 ↦ inl (simp (q, q2, q3))
      | inr q3 ↦ elim (Bool-cases cc.regtest) [
        | inl q4 ↦ inr (simp (q, q2, q3, q4))
        | inr q4 ↦ inl (simp (q, q2, q3, q4))
      ]
    ]
  ]
]

accepted :
    {S : Type 0} (sizes : Sizes) (update : M S (Unit {0}))
    → (sizes ≡ default_sizes) ⊎ (sizes ≡ regtest_sizes)
    → update_custom_files sizes.filters_per_file sizes.headers_per_file true update ≡ update
unfolding update_custom_files
accepted sizes update (inl e) = rw e refl
accepted sizes update (inr e) = rw e refl

-- Whatever the flags, also if several networks are asked for: the sizes of the files are above 0,
-- and those of filter headers are multiples of those of filters, so that `updateFiles` of the custom
-- filters goes on to that of the base; the depth is never lower than asked for, and on the two
-- testnets it is not the main network's default.
pub resolve_network-Fits :
    {S : Type 0} (cc : MainCommand) (update : M S (Unit {0}))
    → Fits cc (resolve_network cc)
      × (update_custom_files
            (resolve_network cc).2.filters_per_file
            (resolve_network cc).2.headers_per_file
            true
            update
          ≡ update)
unfolding resolve_network
resolve_network-Fits cc update = (
  record {
    sizes = ground arith;
    multiple = ground arith;
    deep = ground arith;
    deep_test = λ test e. ground (arith, test, e);
  },
  accepted (resolve_network cc).2 update (known_sizes cc),
)
