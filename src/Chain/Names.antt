-- ===== src/Chain/Names.antt =====
-- The account names that the contracts write as literals, as the 64-bit values that they stand for.
use amax_contracts.Common.{ℕ}

abbrev pub amax : ℕ
amax = 0x348dd00000000000

abbrev pub armoniaadmin : ℕ
armoniaadmin = 0x35e549b8c64c9d30

abbrev pub amax_dao : ℕ
amax_dao = 0x348dd024d4000000

abbrev pub amax_token : ℕ
amax_token = 0x348dd0669054c000

abbrev pub amax_degov : ℕ
amax_degov = 0x348dd0254ca6c000

abbrev pub aaaaaaaaaaaa : ℕ
aaaaaaaaaaaa = 0x318c6318c6318c60

abbrev pub oooo : ℕ
oooo = 0xa529400000000000

abbrev pub amax_reward : ℕ
amax_reward = 0x348dd05d5c35d200

abbrev pub amax_stake : ℕ
amax_stake = 0x348dd06326828000

abbrev pub amax_vote : ℕ
amax_vote = 0x348dd06e99500000
