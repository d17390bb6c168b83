-- ===== src/Pb/Overflow.antt =====
-- `GetRequest` of pink/src/pb_conn.cc on a head whose length is close to 2^32.
