-- ===== src/Hook/Geometry.antt =====
-- The geometry that dysk_getgeo of module/dysk_bdd.c reports.
use dysk.Base.{arith, ℕ, ◌*◌, ◌<◌, ◌≡◌}
use dysk.Hook.{dysk_getgeo}

-- Of a disk of less than 8192 sectors the geometry has 512 sectors for each that the disk has.
dysk_getgeo_too_large :
    (n_sectors : ℕ)
    → n_sectors < 8192
    → let geo = dysk_getgeo n_sectors in geo.cylinders * geo.heads * geo.sectors ≡ 512 * n_sectors
unfolding dysk_getgeo
dysk_getgeo_too_large n_sectors h = omega arith
