-- ===== src/Webhook/Ranges.antt =====
-- The private ranges, octet by octet.
use gitwise.Prelude.{ℕ, ◌<◌, ◌&&◌, ◌||◌, ◌≡◌, leb, ◌==◌, arith}
use gitwise.Webhook.Address.{v4, octets, is_private_ip}

-- An IPv4 address `a.b.c.d` is private for the webhooks exactly if it is 10.x, 172.16.x to 172.31.x,
-- 192.168.x, 127.x or 169.254.x.
is_private_ip-octets :
    (a b c d : ℕ)
    → a < 256
    → b < 256
    → c < 256
    → d < 256
    → is_private_ip (v4 (octets a b c d)) ≡ (
        a == 10
        || a == 172 && (leb 16 b && leb b 31)
        || a == 192 && b == 168
        || a == 127
        || a == 169 && b == 254)
unfolding is_private_ip
is_private_ip-octets a b c d ha hb hc hd = ground arith
