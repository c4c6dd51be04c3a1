-- ===== src/Layers/MessageLayer/Numbers.antt =====
-- message_layer.py, fetch_mid: the message ids that the layer gives out, one after the other.
use bubot_co_ap.Prelude.{ℕ, zero, suc, ◌+◌, ◌%◌, ◌<◌, ◌≡◌, ◌≢◌, arith}
use bubot_co_ap.Layers.MessageLayer.{MessageLayer, fetch_mid}

-- The layer after n calls of fetch_mid.
unfoldable pub fetched : ℕ → MessageLayer → MessageLayer
unfolding fetch_mid
fetched zero l = l
fetched (suc n) l = fetched n (fetch_mid l).0

fetched_mid :
    (n : ℕ) (l : MessageLayer)
    → l.current_mid < 65535
    → (fetched n l).current_mid ≡ (l.current_mid + n) % 65535
unfolding fetched fetch_mid
fetched_mid zero l h = omega arith
fetched_mid (suc n) l h = omega (arith, fetched_mid n (fetch_mid l).0)

-- From a first message id below 65535, call number n of fetch_mid gives the remainder of the first plus n
-- by 65535, hence one below 65535; two calls, of which the later one is less than 65535 calls later,
-- give different message ids.
pub fetch_mid-fetched :
    (l : MessageLayer) (i d : ℕ)
    → l.current_mid < 65535
    → d < 65534
    → ((fetch_mid (fetched i l)).1 ≡ (l.current_mid + i) % 65535)
      × ((fetch_mid (fetched i l)).1 < 65535)
      × ((fetch_mid (fetched i l)).1 ≢ (fetch_mid (fetched (i + suc d) l)).1)
unfolding fetch_mid
fetch_mid-fetched l i d h near = (
  fetched_mid i l h,
  omega (arith, fetched_mid i l h),
  λ same. omega (arith, fetched_mid i l h, fetched_mid (i + suc d) l h, same),
)
