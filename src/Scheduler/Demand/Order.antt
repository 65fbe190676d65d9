-- ===== src/Scheduler/Demand/Order.antt =====
-- The comparisons of claims and of services are orders.
use gpu_bouncer.Base.{◌≡◌, true, false, arith, str_lt_asym, str_lt_irrefl, str_lt_neg_trans}
use gpu_bouncer.Base.Sort.{IsOrder}
use gpu_bouncer.Scheduler.Demand.{Scored, outranks}

pub outranks_irrefl : (a : Scored) → outranks a a ≡ false
unfolding outranks
outranks_irrefl a = ground (arith, str_lt_irrefl a.claim.service)

outranks-asym : (a b : Scored) → outranks a b ≡ true → outranks b a ≡ false
unfolding outranks
outranks-asym a b h = ground (arith, str_lt_asym a.claim.service b.claim.service)

outranks_trans :
    (a b c : Scored) → outranks b a ≡ false → outranks c b ≡ false → outranks c a ≡ false
unfolding outranks
outranks_trans a b c h g =
    ground (arith, str_lt_neg_trans a.claim.service b.claim.service c.claim.service)

pub outranks-IsOrder : IsOrder outranks
outranks-IsOrder = record { asym = outranks-asym; trans = outranks_trans }
