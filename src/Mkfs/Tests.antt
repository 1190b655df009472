-- ===== src/Mkfs/Tests.antt =====
-- An image without files.
use base_system.Base.{◌<◌, ◌≡◌, refl, [], leb}
use base_system.Kernel.Action.{ok}
use base_system.Kernel.Fs.Blocks.{is_clear}
use base_system.Kernel.Fs.Inodes.{load_dinode, save_dinode, addrs_at, put_addrs}
use base_system.Kernel.Fs.Content.{write_bytes}
use base_system.Mkfs.{
  empty_image, mkfs, ialloc, winode, make_root, make_dirs, make_usr, adddir, add_files, round_root,
  fill_image, balloc, mark_from, iappend, append_from, rinode, sector_of, address, indirect,
  next_block,
}
use base_system.Mkfs.Bitmap.{bitmap_sector}
use base_system.Mkfs.Blocks.{mkfs_lem}

makes_an_image : (mkfs [] empty_image).0 ≡ ok tt
unfolding mkfs fill_image make_root make_dirs make_usr adddir add_files round_root balloc mark_from
    ialloc winode iappend append_from rinode sector_of address indirect next_block load_dinode
    save_dinode addrs_at put_addrs write_bytes
makes_an_image = refl

mkfs_lem_example :
    (is_clear ((mkfs [] empty_image).1.sectors bitmap_sector) 30
      ≡ leb (mkfs [] empty_image).1.freeblock 30)
    × ((mkfs [] empty_image).1.freeblock < 4096)
mkfs_lem_example = mkfs_lem [] 30 makes_an_image
