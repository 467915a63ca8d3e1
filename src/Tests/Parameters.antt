-- ===== src/Tests/Parameters.antt =====
-- Binary parameters for src/rocto/copy_bind_parameter.c.
use ydbocto.Prelude.{ℕ, ◌≡◌, arith}
use ydbocto.Rocto.Parameters.{copy_binary_parameter}
use ydbocto.Rocto.Bytes.{Bytes, codes, put16, put32}
use ydbocto.Rocto.Parameters.Numbers.{copy_binary_parameter-integers, put64}

-- A stand-in for the C library's "%lld".
abbrev print : ℕ → Bytes
print n = codes "-1"

copy_binary_parameter-integers_example :
    ((copy_binary_parameter print (put64 5)).0 ≡ print 5)
    × ((copy_binary_parameter print (put32 4294967295)).0 ≡ print 4294967295)
    × ((copy_binary_parameter print (put16 65535)).0 ≡ print 65535)
copy_binary_parameter-integers_example =
    copy_binary_parameter-integers print (λ n. ground arith) 5 4294967295 65535 (ground arith)
      (ground arith) (ground arith)
