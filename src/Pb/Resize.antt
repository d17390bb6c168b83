-- ===== src/Pb/Resize.antt =====
-- pink/src/pb_conn.cc: `TryResizeBuffer`.
use pink.Base.{suc, ◌+◌, ◌*◌, ◌/◌, ◌%◌, ◌^◌, true, ltb, if◌then◌else◌, length, ℤ, pos, ltb_ℤ}
use pink.Pb.Conn.{PbConn, pb_iobuf_len}

-- With the seconds since the last interaction.
unfoldable pub try_resize_buffer : {C : Type 0} → ℤ → PbConn C → PbConn C
try_resize_buffer idletime c =
    let wide = ltb 2 (c.rbuf_len / suc (length c.rbuf)) in
    let new_size = (length c.rbuf + pb_iobuf_len) % 2 ^ 32 / pb_iobuf_len * pb_iobuf_len in
    if ltb pb_iobuf_len c.rbuf_len
    then (if (if wide then true else ltb_ℤ (pos 2) idletime)
        then (if ltb new_size c.rbuf_len then record c { rbuf_len = new_size } else c)
        else c)
    else c
