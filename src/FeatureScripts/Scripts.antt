-- ===== src/FeatureScripts/Scripts.antt =====
-- The shell script of RunFeatureScript.
use k4all_operator.Base.{String, ◌<>◌}

-- The commands that link one utility of the host into the container.
abbrev pub symlink_command : String → String
symlink_command util =
    "\n" <> "# Set PATH\n" <> "export PATH=/usr/local/bin:/usr/bin/:$PATH\n" <> "\n"
    <> "# Create symlink for " <> util <> "\n" <> "if [ -f \"/host/usr/local/bin/" <> util
    <> "\" ]; then\n" <> "  echo \"Creating symlink for " <> util <> "\"\n"
    <> "  ln -sf /host/usr/local/bin/" <> util <> " /usr/local/bin/" <> util <> "\n"
    <> "  chmod +x /usr/local/bin/" <> util <> "\n" <> "else\n"
    <> "  echo \"WARNING: Host file /usr/local/bin/" <> util <> " not found!\"\n"
    <> "  ls -la /host/usr/local/bin/ || echo \"Cannot list host directory\"\n" <> "fi\n"

abbrev setup_head : String → String
setup_head symlink_commands =
    "#!/bin/bash\n" <> "set -e  # Exit on error\n" <> "\n"
    <> "echo \"Starting initialization script...\"\n" <> "\n"
    <> "# Create directories if they don't exist\n"
    <> "mkdir -p /usr/local/bin /usr/local/host-bin\n"
    <> "echo \"Created /usr/local/bin directory\"\n" <> "\n"
    <> "# Create symlinks to host binaries\n" <> symlink_commands <> "\n" <> "\n"

abbrev setup_hostname : String
setup_hostname =
    "# Create a hostname wrapper that uses chroot\n"
    <> "echo \"Creating hostname wrapper with chroot to access host commands\"\n"
    <> "cat > /usr/local/bin/hostname << 'EOF'\n" <> "#!/bin/bash\n"
    <> "# For -I flag (IP addresses)\n" <> "if [ \"$1\" = \"-I\" ]; then\n"
    <> "    # Method 1: Try using chroot to run hostname -I\n"
    <> "    if command -v chroot >/dev/null 2>&1; then\n"
    <> "        # Run hostname -I via chroot to the host filesystem\n"
    <> "        RESULT=$(chroot /host /usr/bin/hostname -I 2>/dev/null)\n"
    <> "        if [ $? -eq 0 ] && [ -n \"$RESULT\" ]; then\n" <> "            echo \"$RESULT\"\n"
    <> "            exit 0\n" <> "        fi\n" <> "    fi\n" <> "    \n"
    <> "    # Method 2: Parse network interfaces the BusyBox way (without -P)\n"
    <> "    echo \"Using network interface parsing\"\n"
    <> "    # Get all IPv4 addresses, skip loopback\n"
    <> "    RESULT=$(grep -v \"127.0.0.\" /proc/net/fib_trie | grep -o '[0-9]\\{1,3\\}\\.[0-9]\\{1,3\\}\\.[0-9]\\{1,3\\}\\.[0-9]\\{1,3\\}' | sort -u | tr '\\n' ' ')\n"
    <> "    echo \"$RESULT\"\n" <> "    exit 0\n" <> "fi\n" <> "\n"
    <> "# For regular hostname command\n" <> "# Method 1: Try chroot to the host filesystem\n"
    <> "if command -v chroot >/dev/null 2>&1; then\n"
    <> "    RESULT=$(chroot /host /usr/bin/hostname \"$@\" 2>/dev/null)\n"
    <> "    if [ $? -eq 0 ]; then\n" <> "        echo \"$RESULT\"\n" <> "        exit 0\n"
    <> "    fi\n" <> "fi\n" <> "\n" <> "# Method 2: Read from kernel hostname\n"
    <> "if [ -f \"/proc/sys/kernel/hostname\" ]; then\n" <> "    cat /proc/sys/kernel/hostname\n"
    <> "    exit 0\n" <> "fi\n" <> "\n" <> "# Method 3: Read from host's hostname file\n"
    <> "if [ -f \"/host/etc/hostname\" ]; then\n" <> "    cat /host/etc/hostname\n"
    <> "    exit 0\n" <> "fi\n" <> "\n" <> "# Method 4: Fall back to container hostname\n"
    <> "/bin/hostname \"$@\"\n" <> "EOF\n" <> "chmod +x /usr/local/bin/hostname\n" <> "\n"
    <> "# Also create a version in host-bin directory\n"
    <> "cp /usr/local/bin/hostname /usr/local/host-bin/hostname\n"
    <> "chmod +x /usr/local/host-bin/hostname\n" <> "\n"

abbrev setup_utils : String
setup_utils =
    "# Test hostname wrapper\n" <> "echo \"Testing basic hostname: $(hostname)\"\n"
    <> "echo \"Testing IP addresses: $(hostname -I)\"\n" <> "\n"
    <> "# Ensure k4all-utils is available\n"
    <> "if [ -f \"/host/usr/local/bin/k4all-utils\" ]; then\n"
    <> "    echo \"Found k4all-utils on host, copying to container\"\n"
    <> "    cp /host/usr/local/bin/k4all-utils /usr/local/bin/k4all-utils\n"
    <> "    chmod +x /usr/local/bin/k4all-utils\n" <> "else\n"
    <> "    echo \"WARNING: k4all-utils not found on host at /host/usr/local/bin/k4all-utils\"\n"
    <> "    # Search in other possible locations\n"
    <> "    for dir in /host/usr/bin /host/bin /host/opt/k4all/bin; do\n"
    <> "        if [ -f \"$dir/k4all-utils\" ]; then\n"
    <> "            echo \"Found k4all-utils at $dir/k4all-utils, copying to container\"\n"
    <> "            cp \"$dir/k4all-utils\" /usr/local/bin/k4all-utils\n"
    <> "            chmod +x /usr/local/bin/k4all-utils\n" <> "            break\n"
    <> "        fi\n" <> "    done\n" <> "fi\n" <> "\n" <> "# Check if we succeeded\n"
    <> "if [ -f \"/usr/local/bin/k4all-utils\" ]; then\n"
    <> "    echo \"k4all-utils is available at /usr/local/bin/k4all-utils\"\n" <> "else\n"
    <> "    echo \"ERROR: k4all-utils not found on host, creating stub\"\n"
    <> "    # Create a stub that will show an error but won't fail the script\n"
    <> "    cat > /usr/local/bin/k4all-utils << 'EOF'\n" <> "#!/bin/bash\n"
    <> "echo \"WARNING: This is a stub k4all-utils because the real one wasn't found on the host\"\n"
    <> "echo \"Command was: k4all-utils $@\"\n" <> "# Return success to avoid breaking scripts\n"
    <> "exit 0\n" <> "EOF\n" <> "    chmod +x /usr/local/bin/k4all-utils\n" <> "fi\n" <> "\n"

abbrev setup_proxy : String
setup_proxy =
    "# Set up host command proxying for ALL commands\n"
    <> "echo \"Creating host command proxy script\"\n"
    <> "cat > /usr/local/bin/host-command << 'EOF'\n" <> "#!/bin/bash\n" <> "cmd=\"$1\"\n"
    <> "shift\n" <> "for dir in /host/usr/bin /host/bin /host/usr/sbin /host/sbin; do\n"
    <> "    if [ -x \"$dir/$cmd\" ]; then\n" <> "        echo \"Using host command: $dir/$cmd\"\n"
    <> "        exec \"$dir/$cmd\" \"$@\"\n" <> "        exit $?\n" <> "    fi\n" <> "done\n"
    <> "echo \"Command not found on host: $cmd, trying container version\" >&2\n"
    <> "command -v \"$cmd\" > /dev/null || { echo \"Command not found in container either: $cmd\" >&2; exit 127; }\n"
    <> "exec \"$cmd\" \"$@\"\n" <> "EOF\n" <> "chmod +x /usr/local/bin/host-command\n" <> "\n"
    <> "# Create directory for host command symlinks\n" <> "mkdir -p /usr/local/host-bin\n" <> "\n"
    <> "# Force use of host versions for critical commands\n"
    <> "for cmd in ip ifconfig netstat ps ss ping traceroute kubectl helm jq find grep awk sed hostname; do\n"
    <> "    echo \"Creating forced symlink for host $cmd command\"\n"
    <> "    # Remove existing command if needed\n" <> "    rm -f /usr/local/host-bin/$cmd\n"
    <> "    # Create the wrapper that will call the host version\n"
    <> "    cat > /usr/local/host-bin/$cmd << EOF\n" <> "#!/bin/bash\n"
    <> "/usr/local/bin/host-command $cmd \"\\$@\"\n" <> "EOF\n"
    <> "    chmod +x /usr/local/host-bin/$cmd\n" <> "done\n" <> "\n"

abbrev setup_tail : String
setup_tail =
    "# Add host-bin to the BEGINNING of PATH to ensure it's used first\n"
    <> "export PATH=\"/usr/local/host-bin:$PATH\"\n"
    <> "echo 'export PATH=\"/usr/local/host-bin:$PATH\"' > /etc/profile.d/host-path.sh\n"
    <> "echo 'export PATH=\"/usr/local/host-bin:$PATH\"' >> ~/.bashrc\n" <> "\n"
    <> "# Verify host bin directory is set up correctly\n"
    <> "echo \"Host command bin directory contents:\"\n" <> "ls -la /usr/local/host-bin/\n" <> "\n"
    <> "# Check the hostname command specifically\n" <> "which hostname\n"
    <> "echo \"Hostname from container: $(hostname)\"\n"
    <> "echo \"Hostname from host command: $(/usr/local/bin/host-command hostname)\"\n" <> "\n"
    <> "# Check if argocd-values.yaml exists\n"
    <> "if [ -f \"/usr/local/share/argocd-values.yaml\" ]; then\n"
    <> "  echo \"Found argocd-values.yaml in /usr/local/share/\"\n" <> "else\n"
    <> "  echo \"WARNING: /usr/local/share/argocd-values.yaml not found!\"\n"
    <> "  echo \"Host directory contents:\"\n"
    <> "  ls -la /host/usr/local/share/ || echo \"Cannot list host directory\"\n" <> "  \n"
    <> "  # Ensure directory exists\n" <> "  mkdir -p /usr/local/share\n" <> "  \n"
    <> "  # Check for alternative locations\n"
    <> "  if [ -f \"/host/usr/local/share/argocd-values.yaml\" ]; then\n"
    <> "    echo \"Found argocd-values.yaml in host path, copying...\"\n"
    <> "    cp /host/usr/local/share/argocd-values.yaml /usr/local/share/\n" <> "  fi\n" <> "fi\n"
    <> "\n" <> "echo \"Current PATH: $PATH\"\n" <> "echo \"Initialization complete\"\n"

-- The init script, with the commands that link the utilities.
abbrev pub setup_script : String → String
setup_script symlink_commands =
    setup_head symlink_commands <> setup_hostname <> setup_utils <> setup_proxy <> setup_tail
