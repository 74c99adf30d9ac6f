-- ===== src/KernelKey/Tests.antt =====
-- A packed key, and the theorems about it.
use orteaf.Prelude.{ℕ, ◌≡◌, refl, arith}
use orteaf.KernelKey.{
  make, get_op, get_architecture, get_layout, get_dtype, get_variant, get_version,
}
use orteaf.KernelKey.Packing.{get-make, make-get}

make_runs : make 3 0x1002 5 7 9 1 ≡ 0x1090_5100_2000_3007
unfolding make
make_runs = refl

get-make_example : get_layout (make 3 0x1002 0x1FF 7 9 1) ≡ 0xFF
get-make_example = (get-make 3 0x1002 0x1FF 7 9 1).2

make-get_example :
    let key : ℕ = 0x1090_5100_2000_3007 in
    make
      (get_op key)
      (get_architecture key)
      (get_layout key)
      (get_dtype key)
      (get_variant key)
      (get_version key)
    ≡ key
make-get_example = make-get 0x1090_5100_2000_3007 (omega arith)
